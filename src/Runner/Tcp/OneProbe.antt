-- ===== src/Runner/Tcp/OneProbe.antt =====
-- What a run over TCP holds: internal/core/runner.go, `runTCP`.
use natcat.Base.{Option, none, some, true, ℕ, ◌≡◌}
use natcat.Rotation.{Cursors}
use natcat.Runner.Tcp.{Rest, TcpTrace}
use natcat.Runner.Tcp.Held.{Held, follow, nothing_held}
use natcat.Text.{Text}
use natcat.Types.{ServerEndpoint}

-- The events follow the rule, and nothing is held where the run has returned.
abbrev pub EndsFree : TcpTrace → Held → Type 0
EndsFree (told, none) h = (h' : Held) × (follow told h ≡ some h')
EndsFree (told, some e) h = follow told h ≡ some nothing_held

-- The sessions that follow end free, beside any probe.
abbrev pub RestEndsFree : Rest → Type 0
RestEndsFree rest =
    (probe : Option ℕ) (e : ServerEndpoint) (cs : Cursors)
    → EndsFree (rest probe e cs) (probe, true)
