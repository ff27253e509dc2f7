-- ===== src/Config/Valid.antt =====
-- What the validation lets through.
use natcat.Base.{
  inl, inr, Bool-cases, Option, Option-cases, ap, arith, false, inr, is_nil, is_some, none, refl,
  some, sym, true, ◌↔◌, ◌∙◌, ◌≡◌, ◌⊎◌,
}
use natcat.Config.{bad_address, custom, group, tcp, udp, validate_config}
use natcat.Int.{pos, ◌≤ℤ◌}
use natcat.Net.{Ip, to4}
use natcat.Port.Spec.{IsBindPort, new_port_picker-IsBindPort}
use natcat.Result.{ok}
use natcat.Text.{Text, text_eq_iff}
use natcat.Types.{InstanceConfig}
use mathlib.Core.Option

bind-four :
    (parsed : Option Ip)
    → is_some (Option.bind parsed to4) ≡ true
    → (ip : Ip) × (four : Ip) × (parsed ≡ some ip) × (to4 ip ≡ some four)
unfolding Option.bind
bind-four none h = let impossible : false ≡ true = h in ground (arith, impossible)
bind-four (some ip) h = elim (Option-cases (to4 ip)) [
  | inl e ↦ let impossible : false ≡ true = sym (ap is_some e) ∙ h in ground (arith, impossible)
  | inr (four, e) ↦ (ip, four, refl, e)
]

four-bind :
    (parsed : Option Ip) (ip four : Ip)
    → parsed ≡ some ip
    → to4 ip ≡ some four
    → is_some (Option.bind parsed to4) ≡ true
unfolding Option.bind
four-bind parsed ip four e f = rw (e) (rw (f) refl)

module _ (parse_ip : Text → Option Ip) where
  -- No text, or one that reads as an IPv4 address.
  abbrev pub IsIp4Text : Text → Type 0
  IsIp4Text s =
      (is_nil s ≡ true) ⊎ ((ip : Ip) × (four : Ip) × (parse_ip s ≡ some ip) × (to4 ip ≡ some four))

  bad_address-IsIp4Text : (s : Text) → (bad_address parse_ip s ≡ false) ↔ IsIp4Text s
  unfolding bad_address
  bad_address-IsIp4Text s = (to, from)
    where
      to : bad_address parse_ip s ≡ false → IsIp4Text s
      to h = elim (Bool-cases (is_nil s)) [
        | inl empty ↦ inl empty
        | inr full ↦ inr (bind-four (parse_ip s) (ground (arith, h, full)))
      ]

      from : IsIp4Text s → bad_address parse_ip s ≡ false
      from (inl empty) = ground (arith, empty)
      from (inr (ip, four, e, f)) = ground (arith, four-bind (parse_ip s) ip four e f)

  -- The conditions under which an instance can run.
  pub record IsValid (cfg : InstanceConfig) : Type 0 where
    pub protocol : (cfg.protocol ≡ tcp) ⊎ (cfg.protocol ≡ udp)
    pub stun_mode : (cfg.stun_mode ≡ custom) ⊎ (cfg.stun_mode ≡ group)
    pub keep_alive_mode : (cfg.keep_alive_mode ≡ custom) ⊎ (cfg.keep_alive_mode ≡ group)
    pub target : cfg.keep_alive_mode ≡ custom → is_nil cfg.http_host ≡ false
    pub stun_port : (pos 0 ≤ℤ cfg.stun_port) × (cfg.stun_port ≤ℤ pos 65535)
    pub http_port : (pos 0 ≤ℤ cfg.http_port) × (cfg.http_port ≤ℤ pos 65535)
    pub confirmations : (pos 1 ≤ℤ cfg.mapping_confirmations) × (cfg.mapping_confirmations ≤ℤ pos 20)
    pub bind_address : IsIp4Text cfg.bind_address
    pub bind_port : IsBindPort cfg.bind_port

  -- The validation accepts exactly the configurations with a known protocol and known modes, a
  -- target for the keep-alive where it is not a group, ports and confirmations in their ranges, an
  -- IPv4 address or none to bind, and a bind port that reads as a port or a range of ports, written
  -- with a dash or a tilde. A probe port of 0, which stands for the default, passes.
  pub validate_config-IsValid :
      (cfg : InstanceConfig) → (validate_config parse_ip cfg ≡ ok tt) ↔ IsValid cfg
  unfolding validate_config
  validate_config-IsValid cfg = (to, from)
    where
      to : validate_config parse_ip cfg ≡ ok tt → IsValid cfg
      to h = record {
        protocol = ground (arith, text_eq_iff cfg.protocol tcp, text_eq_iff cfg.protocol udp);
        stun_mode =
            ground (arith, text_eq_iff cfg.stun_mode custom, text_eq_iff cfg.stun_mode group);
        keep_alive_mode =
            ground (
              arith,
              text_eq_iff cfg.keep_alive_mode custom,
              text_eq_iff cfg.keep_alive_mode group,
            );
        target = λ m. ground (arith, text_eq_iff cfg.keep_alive_mode custom);
        stun_port = ground arith;
        http_port = ground arith;
        confirmations = ground arith;
        bind_address = (bad_address-IsIp4Text cfg.bind_address).0 (ground arith);
        bind_port = (new_port_picker-IsBindPort cfg.bind_port).0 (ground arith);
      }

      from : IsValid cfg → validate_config parse_ip cfg ≡ ok tt
      from v = ground (
        arith,
        (bad_address-IsIp4Text cfg.bind_address).1 v.bind_address,
        (new_port_picker-IsBindPort cfg.bind_port).1 v.bind_port,
        text_eq_iff cfg.protocol tcp,
        text_eq_iff cfg.protocol udp,
        text_eq_iff cfg.stun_mode custom,
        text_eq_iff cfg.stun_mode group,
        text_eq_iff cfg.keep_alive_mode custom,
        text_eq_iff cfg.keep_alive_mode group,
      )
