-- ===== src/Server/Parts.antt =====
-- The paths that name an instance: internal/server/server.go, `instanceByID`.
use natcat.Base.{[], any, ap, arith, false, is_nil, refl, ◌++◌, ◌∙◌, ◌∷◌, ◌≡◌}
use natcat.Manager.{Manager}
use natcat.Notify.{plain}
use natcat.Server.{Moment, Packages, Request}
use natcat.Server.Instances.{by_method, instance_by_id, instances_path, is_slash, path_parts}
use natcat.Text.{Text, cut_prefix, drop_while, split, trim, trim_prefix, trim_right}

-- An id that a path can name: it is not empty and has no slash.
abbrev pub IsPlain : Text → Type 0
IsPlain id = (is_nil id ≡ false) × (any is_slash id ≡ false)

trim_right-plain : (s : Text) → any is_slash s ≡ false → trim_right is_slash s ≡ s
unfolding trim_right
trim_right-plain [] h = refl
trim_right-plain (c ∷ s) h = ground (arith, h, trim_right-plain s)

drop_while-plain : (s : Text) → any is_slash s ≡ false → drop_while is_slash s ≡ s
unfolding drop_while
drop_while-plain [] h = refl
drop_while-plain (c ∷ s) h = ground (arith, h)

split-plain : (s : Text) → any is_slash s ≡ false → split s b'/' ≡ s ∷ []
unfolding split
split-plain [] h = refl
split-plain (c ∷ s) h = ground (arith, h, split-plain s)

-- The path of an instance has its id as the only part.
pub path_parts-id :
    (id : Text) → any is_slash id ≡ false → path_parts (instances_path ++ id) ≡ id ∷ []
unfolding path_parts trim trim_prefix cut_prefix
path_parts-id id h =
    rw (path_parts, drop_while-plain id h, trim_right-plain id h) (split-plain id h)

module _ (p : Packages) (t : Moment) where
  pub instance_by_id-plain :
      (id : Text) (r : Request) (m : Manager)
      → IsPlain id
      → r.path ≡ instances_path ++ id
      → instance_by_id p t r m ≡ by_method p t id r m
  unfolding instance_by_id
  instance_by_id-plain id r m (full, plain) e =
      let parts : path_parts r.path ≡ id ∷ [] = ap path_parts e ∙ path_parts-id id plain in
      rw (instance_by_id, parts, full) refl
