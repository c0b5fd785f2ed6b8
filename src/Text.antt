-- ===== src/Text.antt =====
-- Go strings, as lists of bytes, and the functions of Go's `strings` package that the program
-- calls, in their byte-level meaning. A literal of the source is `codes "…"`.
pub mod Order
pub mod Cut
pub mod Trim
pub mod Around
pub mod Space
use Prim.Native.Char.{code}
use Prim.Native.String.{String}
use secret_control_panel.Base.{
  ltb, leb, nat_beq, if◌then◌else◌, leb_iff, nat_beq_iff, Bool-cases, Option-cases, is_some, ◌==◌,
  ◌!=◌, nat_eq, eq_iff, eq_refl, ne_of_beq, beq_of_ne, list_beq, list_beq_iff, Eq, length, take,
  any, all, filter, find?, All, length-append, All-append, All-mem, All-of-mem, All-perm, mem-perm,
  All-take, All-map, mem-filter, mem_of-filter, length-filter-le, length-filter-lt, pos_part,
  neg_part, ◌≤ℤ◌, leb_ℤ, ℤ, pos, negsuc, ◌>>=◌, ◌>>◌, >>=-ok, Result, ok, err, Pairs, Pairs-take,
  Pairs-filter, Pairs-perm, Pairs-map, Pairs-of-map, Pairs-eq, ℕ, zero, suc, ◌+◌, ◌-◌, ◌*◌, ◌%◌,
  ◌^◌, ◌≤◌, ◌<◌, min, max, ◌≡◌, refl, sym, ap, subst, ◌∙◌, ◌≢◌, ◌↔◌, ◌⊎◌, inl, inr, Bool, true,
  false, false≢true, not, ◌&&◌, ◌||◌, Option, none, some, List, [], ◌∷◌, ◌++◌, map, reverse, Memᴰ,
  Permᴰ, le_antisymm, le_trans, le_refl, arith,
}
use mathlib.Core.Option

abbrev pub Str : Type 0
Str = List ℕ

-- The bytes of an ASCII literal.
abbrev pub codes : String → Str
codes String.[] = []
codes (String.◌∷◌ c s) = code c ∷ codes s

instance abbrev pub str_eq : Eq Str
str_eq = record { equals = list_beq; equals_iff = list_beq_iff }

-- strings.CutPrefix: what follows the prefix, if the text begins with it.
unfoldable pub cut_prefix : Str → Str → Option Str
cut_prefix s [] = some s
cut_prefix [] (c ∷ p) = none
cut_prefix (x ∷ s) (c ∷ p) = if x == c then cut_prefix s p else none

unfoldable pub has_prefix : Str → Str → Bool
has_prefix s p = is_some (cut_prefix s p)

unfoldable pub trim_prefix : Str → Str → Str
trim_prefix s p = Option.get_or (cut_prefix s p) s

-- The same at the end of the text.
unfoldable pub cut_suffix : Str → Str → Option Str
cut_suffix s p = Option.map reverse (cut_prefix (reverse s) (reverse p))

unfoldable pub has_suffix : Str → Str → Bool
unfolding cut_suffix
has_suffix s p = is_some (cut_suffix s p)

unfoldable pub trim_suffix : Str → Str → Str
unfolding cut_suffix
trim_suffix s p = Option.get_or (cut_suffix s p) s

-- strings.Count for a text of one byte.
unfoldable pub count : Str → ℕ → ℕ
count [] c = 0
count (x ∷ s) c = if x == c then suc (count s c) else count s c

-- strings.TrimLeft, TrimRight and Trim for a cutset of one byte.
unfoldable pub trim_left : Str → ℕ → Str
trim_left [] c = []
trim_left (x ∷ s) c = if x == c then trim_left s c else x ∷ s

unfoldable pub trim_right : Str → ℕ → Str
unfolding trim_left
trim_right s c = reverse (trim_left (reverse s) c)

unfoldable pub trim : Str → ℕ → Str
unfolding trim_right
trim s c = trim_right (trim_left s c) c

-- The text before and after the first `c`, as strings.IndexByte and slicing find them.
unfoldable pub cut_byte : Str → ℕ → Option (Str × Str)
cut_byte [] c = none
cut_byte (x ∷ s) c =
    if x == c then some ([], s) else Option.map (λ r. (x ∷ r.0, r.1)) (cut_byte s c)

-- `<` on strings: by bytes.
unfoldable pub str_lt : Str → Str → Bool
str_lt [] [] = false
str_lt [] (y ∷ t) = true
str_lt (x ∷ s) [] = false
str_lt (x ∷ s) (y ∷ t) = if ltb x y then true else (x == y && str_lt s t)

abbrev slashed : Str
slashed = codes "/kv//app/"

trim_slashes : trim slashed b'/' ≡ codes "kv//app"
unfolding trim
trim_slashes = refl

suffix_cut : (cut_suffix (codes "kv/") (codes "/") ≡ some (codes "kv"))
unfolding cut_suffix cut_prefix
suffix_cut = refl
