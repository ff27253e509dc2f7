-- ===== src/Manager/Events.antt =====
-- The channels of the subscribers.
use natcat.Base.{
  All, Bool-cases, List, [], arith, drop, false, inl, inr, length, length-append, length-drop, ltb,
  refl, suc, ◌++◌, ◌-◌, ◌<◌, ◌∷◌, ◌≡◌, ◌≤◌,
}
use natcat.Manager.{RuntimeEvent, Subscriber, channel_size, send, send_all}

-- A channel holds at most its size.
abbrev pub IsWithin : Subscriber → Type 0
IsWithin ch = length ch.queue ≤ channel_size

drop-full :
    (queue : List RuntimeEvent) (event : RuntimeEvent)
    → 0 < length queue
    → drop 1 (queue ++ event ∷ []) ≡ drop 1 queue ++ event ∷ []
drop-full [] event h = ground arith
drop-full (first ∷ queue) event h = refl

one-over :
    (queue : List RuntimeEvent)
    → length queue ≤ channel_size
    → ltb (length queue) channel_size ≡ false
    → suc (length queue) - channel_size ≡ 1
one-over queue room full = ground arith

-- What a subscriber whose channel holds at most 64 events finds after a notice is the newest 64 of
-- what waited and the notice: nothing is lost while there is room, and then only the oldest.
pub send_lem :
    (event : RuntimeEvent) (queue : List RuntimeEvent)
    → length queue ≤ channel_size
    → (send event queue ≡ drop (suc (length queue) - channel_size) (queue ++ event ∷ []))
      × (length (send event queue) ≤ channel_size)
unfolding send
send_lem event queue room = elim (Bool-cases (ltb (length queue) channel_size)) [
  | inl some_room ↦ ground (arith, length-append queue (event ∷ []))
  | inr full ↦
      rw (full, one-over queue room full, drop-full queue event (ground arith))
        (refl, ground (arith, length-append (drop 1 queue) (event ∷ []), length-drop 1 queue))
]

pub send_all-IsWithin :
    (event : RuntimeEvent) (subscribers : List Subscriber)
    → All IsWithin subscribers
    → All IsWithin (send_all event subscribers)
unfolding send_all
send_all-IsWithin event [] a = tt
send_all-IsWithin event (ch ∷ rest) a =
    ((send_lem event ch.queue (a.0)).1, send_all-IsWithin event rest (a.1))
