-- ===== src/Base/Unicode/Laws.antt =====
-- About `str.strip`.
use Prim.Native.Char.{code}
use Prim.Native.String.{String}
use mathlib.Core.Bool.{true, ◌&&◌}
use mathlib.Core.Path.{◌≡◌, refl, ap, sym, ◌∙◌}
use mathlib.Core.Logic.{inl, inr}
use model_route.Base.Tests.{Bool-cases}
use model_route.Base.Unicode.{Unicode, is_empty, strip_left, strip_right, strip}

module _ (u : Unicode) where
  strip_left_idem : (s : String) → strip_left u (strip_left u s) ≡ strip_left u s
  unfolding strip_left
  strip_left_idem String.[] = refl
  strip_left_idem (String.◌∷◌ c s) = elim (Bool-cases (u.is_space (code c))) [
    | inl white ↦ rw (white) (strip_left_idem s)
    | inr black ↦ rw (black, strip_left) (rw black refl)
  ]

  strip_right_idem : (s : String) → strip_right u (strip_right u s) ≡ strip_right u s
  unfolding strip_right
  strip_right_idem String.[] = refl
  strip_right_idem (String.◌∷◌ c s) =
      elim (Bool-cases (is_empty (strip_right u s) && u.is_space (code c))) [
        | inl gone ↦ rw gone refl
        | inr stays ↦ rw (stays, strip_right, strip_right_idem s, stays) refl
      ]

  empty_lem : (s : String) → is_empty s ≡ true → s ≡ String.[]
  unfolding is_empty
  empty_lem String.[] h = refl
  empty_lem (String.◌∷◌ c s) h = cc

  strip_left-strip_right :
      (s : String) → strip_left u (strip_right u s) ≡ strip_right u (strip_left u s)
  unfolding strip_left strip_right is_empty
  strip_left-strip_right String.[] = refl
  strip_left-strip_right (String.◌∷◌ c s) = elim (Bool-cases (is_empty (strip_right u s))) [
    | inl gone ↦ elim (Bool-cases (u.is_space (code c))) [
      | inl white ↦
          rw (gone, white) (ap (strip_left u) (sym (empty_lem _ gone)) ∙ strip_left-strip_right s)
      | inr black ↦ simp (gone, black)
    ]
    | inr stays ↦ elim (Bool-cases (u.is_space (code c))) [
      | inl white ↦ rw (stays, white) (strip_left-strip_right s)
      | inr black ↦ simp (stays, black)
    ]
  ]

  -- A text that was stripped is stripped.
  pub strip_idem : (s : String) → strip u (strip u s) ≡ strip u s
  unfolding strip
  strip_idem s =
      ap (strip_right u) (strip_left-strip_right (strip_left u s))
      ∙ strip_right_idem (strip_left u (strip_left u s))
      ∙ ap (strip_right u) (strip_left_idem s)
