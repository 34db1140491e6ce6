-- ===== src/Examples.antt =====
-- Concrete runs of the models: an epoll instance and a task queue to run them on, and
-- the theorems at concrete states.
mod Kernel
mod Worlds
mod Connected
mod Rounds
mod Buffer
mod Channel
mod Loop
mod Connection
mod Pool
mod Server
mod System
mod Thread
mod Acceptor
mod Accepted
mod Connector
mod Client
mod Socket
