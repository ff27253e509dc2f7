-- ===== src/Port/Bind.antt =====
-- The bound port of a runner: kept while it works, changed after a failure.
use natcat.Base.{Option, arith, ℕ, ◌<◌, ◌≡◌, ◌≢◌, ◌≤◌}
use natcat.Int.{pos}
use natcat.Port.{BindState, advance_bind_port, bind_port, keep_bind_port, no_port}
use natcat.Port.Range.{DrawsBelow, IsValid, next_except_lem}

-- Once a port is chosen, asking again gives the same port and changes nothing.
pub bind_port_again :
    (r : BindState) (rand again : ℕ → Option ℕ)
    → bind_port (bind_port r rand).0 again ≡ ((bind_port r rand).0, (bind_port r rand).1)
unfolding bind_port
bind_port_again r rand again = ground arith

-- When a port failed, the next one that the runner binds is another port of the configured range,
-- if the picker is valid, random draws are below its size, and the range has two ports or more. The
-- failed port is then forgotten.
pub bind_port-advance_bind_port :
    (r : BindState) (rand : ℕ → Option ℕ)
    → IsValid r.picker
    → DrawsBelow r.picker rand
    → r.picker.start < r.picker.end
    → ((bind_port (advance_bind_port r) rand).1 ≢ r.current_port)
      × (r.picker.start ≤ (bind_port (advance_bind_port r) rand).1)
      × ((bind_port (advance_bind_port r) rand).1 ≤ r.picker.end)
      × ((bind_port (advance_bind_port r) rand).0.failed_port ≡ no_port)
unfolding bind_port advance_bind_port
bind_port-advance_bind_port r rand v d lt =
    ground (arith, next_except_lem r.picker (pos r.current_port) rand v d)

-- The port that the system gave is kept: the next bind asks for the same one, whatever range the
-- picker has, and even if a failure had asked for another.
pub bind_port-keep_bind_port :
    (r : BindState) (actual : ℕ) (rand : ℕ → Option ℕ)
    → 0 < actual
    → (bind_port (keep_bind_port r actual) rand ≡ (keep_bind_port r actual, actual))
      × (keep_bind_port (advance_bind_port r) actual ≡ keep_bind_port r actual)
unfolding bind_port keep_bind_port advance_bind_port
bind_port-keep_bind_port r actual rand h = ground arith
