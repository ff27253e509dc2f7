-- ===== src/Tests/Network.antt =====
-- Runs of the STUN parser, the confirmation, the mapping and the bind port.
use natcat.Base.{
  List, Option, [], arith, false, none, refl, some, suc, true, ℕ, ◌++◌, ◌<◌, ◌∷◌, ◌≡◌, ◌≢◌, ◌≤◌,
}
use natcat.Config.{tcp}
use natcat.Int.{pos}
use natcat.Mapping.{MappingEvent, MappingState, init_mapping}
use natcat.Mapping.Change.{update_all, update_all_stable}
use natcat.Net.{Ip, ip_equal}
use natcat.Port.{
  BindState, PortPicker, advance_bind_port, bind_port, new_port_picker, next_except, no_port,
}
use natcat.Port.Bind.{bind_port-advance_bind_port}
use natcat.Port.Range.{DrawsBelow, IsValid, new_port_picker-IsValid, next_except_lem}
use natcat.Probe.{Env, confirm_public_probe, same_result}
use natcat.Probe.Stable.{IsStable, confirm_public_probe_stable}
use natcat.Probe.Streak.{Streak, confirm_public_probe-Streak}
use natcat.Result.{ok}
use natcat.Stun.{Bytes, StunResult, no_result, parse_stun}
use natcat.Stun.Total.{parse_stun-safe, safe}
use natcat.Text.{Text, atoi, codes, contains, split, text_eq, trim_space}

abbrev tid : Bytes
tid = 1 ∷ 2 ∷ 3 ∷ 4 ∷ 5 ∷ 6 ∷ 7 ∷ 8 ∷ 9 ∷ 10 ∷ 11 ∷ 12 ∷ []

abbrev home : Ip
home = 203 ∷ 0 ∷ 113 ∷ 7 ∷ []

abbrev software : List (ℕ × Bytes)
software = (0x8022, 65 ∷ 66 ∷ 67 ∷ []) ∷ []

-- A binding response header with an attribute that says it is longer than what is left.
abbrev cut_packet : Bytes
cut_packet = 1 ∷ 1 ∷ 0 ∷ 4 ∷ 0x21 ∷ 0x12 ∷ 0xA4 ∷ 0x42 ∷ (tid ++ 0 ∷ 1 ∷ 0 ∷ 8 ∷ [])

parse_stun-safe_example : safe (parse_stun cut_packet) ≡ true
parse_stun-safe_example = parse_stun-safe cut_packet

abbrev seen_home : StunResult
seen_home = record no_result { ip = home; port = 40000 }

abbrev steady : Env
steady = record { probe = λ k. ok seen_home; ctx_done = λ k. false; wait_done = λ k. false }

steady-IsStable : IsStable steady (λ k. seen_home)
unfolding same_result natcat.Net.ip_equal natcat.Text.text_eq
steady-IsStable = record {
  answers = λ k. refl;
  agree = λ k. refl;
  ctx_open = λ k. refl;
  wait_open = λ k. refl;
}

confirm_public_probe_stable_example : (confirm_public_probe steady (pos 3) 2 none).1 ≡ ok seen_home
confirm_public_probe_stable_example =
    confirm_public_probe_stable steady (λ k. seen_home) (pos 3) 2 steady-IsStable

confirm_public_probe-Streak_example :
    (c : StunResult) × (k : ℕ) × Streak steady c 3 (suc k) × (steady.probe k ≡ ok seen_home)
confirm_public_probe-Streak_example =
    confirm_public_probe-Streak steady (pos 3) 2 (omega arith)
      (confirm_public_probe_stable steady (λ k. seen_home) (pos 3) 2 steady-IsStable)

abbrev event : MappingEvent
event = record {
  public_ip = home;
  public_port = pos 40000;
  private_ip = 192 ∷ 168 ∷ 1 ∷ 5 ∷ [];
  private_port = pos 5000;
  protocol = tcp;
}

abbrev moved_event : MappingEvent
moved_event = record event { private_port = pos 5001 }

abbrev mapped : MappingState
mapped = record init_mapping {
  last_map = some event;
  public_stable_since = 20;
  public_updated_at = 30;
}

update_all_stable_example :
    ((update_all ((50, moved_event) ∷ (60, event) ∷ []) mapped).public_stable_since ≡ 20)
    × ((update_all ((50, moved_event) ∷ (60, event) ∷ []) mapped).public_updated_at ≡ 30)
update_all_stable_example =
    update_all_stable home (pos 40000) tcp ((50, moved_event) ∷ (60, event) ∷ []) mapped event refl
      (refl, refl, refl) ((refl, refl, refl), ((refl, refl, refl), tt)) (omega arith) (omega arith)

abbrev four : PortPicker
four = record { start = 4000; end = 4003; randomized = false; next = 4000 }

four_picked : new_port_picker (codes "4000-4003") ≡ ok four
unfolding new_port_picker natcat.Text.contains natcat.Text.trim_space natcat.Text.split
    natcat.Text.atoi
four_picked = refl

abbrev draws : ℕ → Option ℕ
draws k = some 2

draws-DrawsBelow : DrawsBelow four draws
draws-DrawsBelow k n e = ground arith

next_except_lem_example :
    IsValid (next_except four (pos 4000) draws).0
    × ((next_except four (pos 4000) draws).0.start ≡ 4000)
    × ((next_except four (pos 4000) draws).0.end ≡ 4003)
    × (4000 ≤ (next_except four (pos 4000) draws).1)
    × ((next_except four (pos 4000) draws).1 ≤ 4003)
    × (4000 < 4003 → pos (next_except four (pos 4000) draws).1 ≢ pos 4000)
next_except_lem_example =
    next_except_lem four (pos 4000) draws (new_port_picker-IsValid (codes "4000-4003") four_picked)
      draws-DrawsBelow

abbrev bound : BindState
bound = record {
  picker = four;
  current_port = 4000;
  failed_port = no_port;
  has_port = true;
  advance_port = false;
}

bind_port-advance_bind_port_example :
    ((bind_port (advance_bind_port bound) draws).1 ≢ 4000)
    × (4000 ≤ (bind_port (advance_bind_port bound) draws).1)
    × ((bind_port (advance_bind_port bound) draws).1 ≤ 4003)
    × ((bind_port (advance_bind_port bound) draws).0.failed_port ≡ no_port)
bind_port-advance_bind_port_example =
    bind_port-advance_bind_port bound draws
      (new_port_picker-IsValid (codes "4000-4003") four_picked) draws-DrawsBelow (omega arith)
