-- ===== src/Vga/Colors.antt =====
-- Colour codes: the background in the high half of the byte, the foreground in the low half.
use Prim.Native.Nat.{bit_or}
use taijios.Common.{
  ℕ, zero, suc, ◌+◌, ◌*◌, ◌/◌, ◌%◌, ◌^◌, ◌<◌, ◌≡◌, ◌∙◌, refl, ap, arith, Bool, true, ◌&&◌, ◌==◌,
  List, [], ◌∷◌, get_or,
}
use native.Mathlib.Decide.{dec_lt}
use taijios.Vga.{Color, color_u8, color_code_new}

-- The test holds below `n`.
abbrev all_below : ℕ → (ℕ → Bool) → Bool
all_below zero p = true
all_below (suc n) p = p n && all_below n p

all_below-at : (n : ℕ) (p : ℕ → Bool) (i : ℕ) → all_below n p ≡ true → i < n → p i ≡ true
all_below-at zero p i h lt = absurd (omega arith)
all_below-at (suc n) p i h lt = elim (dec_lt i n) [
  | yes below ↦ all_below-at n p i (ground arith) below
  | no last ↦ let e : i ≡ n = omega arith in rw e (ground arith)
]

-- Two halves of a byte are put together by addition.
abbrev joins : ℕ → ℕ → Bool
joins high low = bit_or (high * 2 ^ 4 % 2 ^ 8) low == (high * 16 + low)

joins_all : all_below 16 (λ high. all_below 16 (joins high)) ≡ true
joins_all = refl

-- the sixteen colours by number
abbrev pub colors : List Color
colors =
    Color.black ∷ Color.blue ∷ Color.green ∷ Color.cyan ∷ Color.red ∷ Color.magenta ∷ Color.brown
    ∷ Color.light_gray ∷ Color.dark_gray ∷ Color.light_blue ∷ Color.light_green ∷ Color.light_cyan
    ∷ Color.light_red ∷ Color.pink ∷ Color.yellow ∷ Color.white ∷ []

color_u8-listed : (c : Color) → (color_u8 c < 16) × (get_or colors (color_u8 c) Color.black ≡ c)
unfolding color_u8
color_u8-listed Color.black = (omega arith, refl)
color_u8-listed Color.blue = (omega arith, refl)
color_u8-listed Color.green = (omega arith, refl)
color_u8-listed Color.cyan = (omega arith, refl)
color_u8-listed Color.red = (omega arith, refl)
color_u8-listed Color.magenta = (omega arith, refl)
color_u8-listed Color.brown = (omega arith, refl)
color_u8-listed Color.light_gray = (omega arith, refl)
color_u8-listed Color.dark_gray = (omega arith, refl)
color_u8-listed Color.light_blue = (omega arith, refl)
color_u8-listed Color.light_green = (omega arith, refl)
color_u8-listed Color.light_cyan = (omega arith, refl)
color_u8-listed Color.light_red = (omega arith, refl)
color_u8-listed Color.pink = (omega arith, refl)
color_u8-listed Color.yellow = (omega arith, refl)
color_u8-listed Color.white = (omega arith, refl)

color_code_new-sum :
    (foreground background : Color)
    → color_code_new foreground background ≡ color_u8 background * 16 + color_u8 foreground
unfolding color_code_new
color_code_new-sum foreground background = ground (
  arith,
  all_below-at 16 (joins (color_u8 background)) (color_u8 foreground)
      (all_below-at 16 (λ high. all_below 16 (joins high)) (color_u8 background) joins_all
        (color_u8-listed background).0)
      (color_u8-listed foreground).0,
)

-- A colour code is a byte, and both colours can be read back from its halves.
pub color_code_new-decode :
    (foreground background : Color)
    → (color_code_new foreground background < 256)
      × (get_or colors (color_code_new foreground background % 16) Color.black ≡ foreground)
      × (get_or colors (color_code_new foreground background / 16) Color.black ≡ background)
color_code_new-decode foreground background =
    let (f, listed) = color_u8-listed foreground in
    let (b, listed') = color_u8-listed background in
    let sum = color_code_new-sum foreground background in
    let low : color_code_new foreground background % 16 ≡ color_u8 foreground =
      omega (arith, sum) in
    let high : color_code_new foreground background / 16 ≡ color_u8 background =
      omega (arith, sum) in
    (
      omega (arith, sum),
      ap (λ i. get_or colors i Color.black) low ∙ listed,
      ap (λ i. get_or colors i Color.black) high ∙ listed',
    )
