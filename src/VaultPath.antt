-- ===== src/VaultPath.antt =====
-- internal/shared/vaultpath/vaultpath.go: "<mount>/<path>" keys.
pub mod Keys
pub mod Tests
use secret_control_panel.Base.{
  ltb, leb, nat_beq, if◌then◌else◌, leb_iff, nat_beq_iff, Bool-cases, Option-cases, is_some, ◌==◌,
  ◌!=◌, nat_eq, eq_iff, eq_refl, ne_of_beq, beq_of_ne, list_beq, list_beq_iff, Eq, length, take,
  any, all, filter, find?, All, length-append, pos_part, neg_part, ◌≤ℤ◌, leb_ℤ, ℤ, pos, negsuc, ℕ,
  zero, suc, ◌+◌, ◌-◌, ◌*◌, ◌%◌, ◌^◌, ◌≤◌, ◌<◌, min, max, ◌≡◌, refl, sym, ap, subst, ◌∙◌, ◌≢◌, ◌↔◌,
  ◌⊎◌, inl, inr, Bool, true, false, not, ◌&&◌, ◌||◌, Option, none, some, List, [], ◌∷◌, ◌++◌, map,
  reverse, arith,
}
use secret_control_panel.Text.{Str, codes, str_eq, trim, cut_byte}

-- strings.Trim(s, "/")
unfoldable pub normalize : Str → Str
normalize s = trim s b'/'

unfoldable pub join : Str → Str → Str
join mount path =
    let m = normalize mount in
    let p = normalize path in if m == [] then p else if p == [] then m else m ++ b'/' ∷ p

-- The two results of a slicing at the first "/", or the whole text and an empty path.
abbrev split_at : Str → Option (Str × Str) → Str × Str
split_at key none = (key, [])
split_at key (some (mount, path)) = (mount, path)

unfoldable pub split : Str → Str × Str
split key = let key' = normalize key in split_at key' (cut_byte key' b'/')
