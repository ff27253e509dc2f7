-- ===== src/Config/Normal.antt =====
-- Making a configuration normal twice is making it so once.
use natcat.Base.{Bool-cases, ap, arith, inl, inr, is_nil, refl, sym, ◌∙◌, ◌≡◌}
use natcat.Config.{
  custom, default_config, default_http_port, default_mapping_confirmations, lower_trim,
  normalize_config, or_positive, or_text, tcp, trim_config,
}
use natcat.Int.{pos, ℤ, ◌≤ℤ◌}
use natcat.Text.{Text, codes, to_lower, trim_space}
use natcat.Text.Trim.{to_lower_idem, trim_space-to_lower, trim_space_idem}
use natcat.Types.{InstanceConfig}

or_text_idem :
    (f : Text → Text) (s default : Text)
    → f (f s) ≡ f s
    → f default ≡ default
    → or_text (f (or_text (f s) default)) default ≡ or_text (f s) default
or_text_idem f s default twice fixed = elim (Bool-cases (is_nil (f s))) [
  | inl e ↦ rw (e, fixed) (ground arith)
  | inr e ↦ rw (e, twice, e)
]

lower_trim_idem : (s : Text) → lower_trim (lower_trim s) ≡ lower_trim s
lower_trim_idem s =
    ap to_lower (trim_space-to_lower (trim_space s) ∙ ap to_lower (trim_space_idem s))
    ∙ to_lower_idem (trim_space s)

or_positive_idem :
    (n a b : ℤ) → pos 1 ≤ℤ a → a ≡ b → or_positive (or_positive n a) b ≡ or_positive n a
or_positive_idem n a b h e = ground arith

default_http_port-pos : (protocol : Text) → pos 1 ≤ℤ default_http_port protocol
default_http_port-pos protocol = ground arith

abbrev name_default : Text
name_default = codes "NATCat Instance"

-- `normalizeConfig` is idempotent: what is stored and what is resolved from it later agree.
pub normalize_config_idem :
    (cfg : InstanceConfig) → normalize_config (normalize_config cfg) ≡ normalize_config cfg
unfolding normalize_config default_config trim_config
normalize_config_idem cfg = λ i. record (normalize_config cfg) {
  name = or_text_idem trim_space cfg.name name_default (trim_space_idem _) fix_name i;
  protocol = protocol i;
  bind_address = trim_space_idem cfg.bind_address i;
  bind_port = or_text_idem trim_space cfg.bind_port (codes "0") (trim_space_idem _) fix_port i;
  stun_mode = or_text_idem lower_trim cfg.stun_mode custom (lower_trim_idem _) fix_custom i;
  stun_group_id = trim_space_idem cfg.stun_group_id i;
  stun_host = trim_space_idem cfg.stun_host i;
  keep_alive_mode =
      or_text_idem lower_trim cfg.keep_alive_mode custom (lower_trim_idem _) fix_custom i;
  keep_alive_group_id = trim_space_idem cfg.keep_alive_group_id i;
  http_host = trim_space_idem cfg.http_host i;
  http_port =
      or_positive_idem cfg.http_port _ _ (default_http_port-pos _)
        (ap default_http_port (sym protocol)) i;
  interface = trim_space_idem cfg.interface i;
  keep_alive_seconds = or_positive_idem cfg.keep_alive_seconds (pos 30) _ (omega arith) refl i;
  mapping_confirmations =
      or_positive_idem cfg.mapping_confirmations default_mapping_confirmations _ (omega arith) refl
        i;
  notify_script = trim_space_idem cfg.notify_script i;
}
  where
    fix_name : trim_space name_default ≡ name_default
    fix_name = unfold trim_space in refl

    fix_port : trim_space (codes "0") ≡ codes "0"
    fix_port = unfold trim_space in refl

    fix_custom : lower_trim custom ≡ custom
    fix_custom = unfold trim_space to_lower in refl

    fix_tcp : lower_trim tcp ≡ tcp
    fix_tcp = unfold trim_space to_lower in refl

    protocol :
        or_text (lower_trim (or_text (lower_trim cfg.protocol) tcp)) tcp
        ≡ or_text (lower_trim cfg.protocol) tcp
    protocol = or_text_idem lower_trim cfg.protocol tcp (lower_trim_idem _) fix_tcp
