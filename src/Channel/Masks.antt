-- ===== src/Channel/Masks.antt =====
-- event_channel.cpp: the masks that a channel can hold, and what the bit operations do to them.
use network_poller.Prelude.{ℕ, ◌≡◌, refl, Bool, true, false, not, ◌||◌}
use network_poller.Channel.Flags.{Interest, encode}
use network_poller.Channel.Defs.{
  Channel, is_none_event, is_reading, is_writing, with_reading, without_reading, with_writing,
  without_writing, without_all,
}

-- The channel's mask stands for this interest.
abbrev pub Wants : Channel → Interest → Type 0
Wants c i = c.events ≡ encode i

-- The tests read the two Booleans off the mask.
pub record Tested (c : Channel) (i : Interest) : Type 0 where
  pub reading : is_reading c ≡ i.reading
  pub writing : is_writing c ≡ i.writing
  pub idle : is_none_event c ≡ not (i.reading || i.writing)

abbrev with_mask : Channel → Interest → Channel
with_mask c i = record c { events = encode i }

Tested-by_cases :
    (c : Channel) (r w : Bool)
    → Tested
        (with_mask c (record { reading = r; writing = w }))
        (record { reading = r; writing = w })
Tested-by_cases c true true = record { reading = refl; writing = refl; idle = refl }
Tested-by_cases c true false = record { reading = refl; writing = refl; idle = refl }
Tested-by_cases c false true = record { reading = refl; writing = refl; idle = refl }
Tested-by_cases c false false = record { reading = refl; writing = refl; idle = refl }

-- IsReading, IsWriting and IsNoneEvent answer by the interest that the mask stands for.
pub Wants-Tested : (c : Channel) (i : Interest) → Wants c i → Tested c i
Wants-Tested c i e = record {
  reading = rw e (Tested-by_cases c i.reading i.writing).reading;
  writing = rw e (Tested-by_cases c i.reading i.writing).writing;
  idle = rw e (Tested-by_cases c i.reading i.writing).idle;
}

-- What the five updates make of the mask of an interest.
pub record Updated (mask : ℕ) (i : Interest) : Type 0 where
  pub after_with_reading : with_reading mask ≡ encode (record i { reading = true })
  pub after_without_reading : without_reading mask ≡ encode (record i { reading = false })
  pub after_with_writing : with_writing mask ≡ encode (record i { writing = true })
  pub after_without_writing : without_writing mask ≡ encode (record i { writing = false })
  pub after_without_all : without_all mask ≡ encode (record { reading = false; writing = false })

abbrev interest : Bool → Bool → Interest
interest r w = record { reading = r; writing = w }

Updated-by_cases : (r w : Bool) → Updated (encode (interest r w)) (interest r w)
Updated-by_cases true true = record {
  after_with_reading = refl;
  after_without_reading = refl;
  after_with_writing = refl;
  after_without_writing = refl;
  after_without_all = refl;
}
Updated-by_cases true false = record {
  after_with_reading = refl;
  after_without_reading = refl;
  after_with_writing = refl;
  after_without_writing = refl;
  after_without_all = refl;
}
Updated-by_cases false true = record {
  after_with_reading = refl;
  after_without_reading = refl;
  after_with_writing = refl;
  after_without_writing = refl;
  after_without_all = refl;
}
Updated-by_cases false false = record {
  after_with_reading = refl;
  after_without_reading = refl;
  after_with_writing = refl;
  after_without_writing = refl;
  after_without_all = refl;
}

-- Each update of a mask that stands for an interest sets or clears that one Boolean, and the mask
-- stands for the result.
pub encode-Updated : (mask : ℕ) (i : Interest) → mask ≡ encode i → Updated mask i
encode-Updated mask i e = rw e (Updated-by_cases i.reading i.writing)
