-- ===== src/Prelude/Text.antt =====
-- Python's string methods, as walks over the characters of a text.
use Prim.Native.Nat.{ℕ, suc, ◌+◌}
use Prim.Native.Char.{Char, code}
use Prim.Native.String.{String, [], ◌∷◌}
use mathlib.Core.Bool.{Bool, true, false, ◌&&◌, ◌||◌}
use octonomy.Prelude.Tests.{leb, nat_beq, if◌then◌else◌}

-- `str.isspace` of one character.
unfoldable pub is_space : Char → Bool
is_space ch =
    let c = code ch in
    (leb 9 c && leb c 13)
    || (leb 28 c && leb c 32)
    || nat_beq c 133
    || nat_beq c 160
    || nat_beq c 5760
    || (leb 8192 c && leb c 8202)
    || nat_beq c 8232
    || nat_beq c 8233
    || nat_beq c 8239
    || nat_beq c 8287
    || nat_beq c 12288

-- `not s.strip()`: nothing but white space.
unfoldable pub is_blank : String → Bool
unfolding is_space
is_blank [] = true
is_blank (c ∷ s) = is_space c && is_blank s

-- `"," in s`
unfoldable pub has_code : ℕ → String → Bool
has_code k [] = false
has_code k (c ∷ s) = nat_beq (code c) k || has_code k s

-- `len(s)`: the characters.
abbrev pub len : String → ℕ
len [] = 0
len (c ∷ s) = suc (len s)

-- `s.lstrip()`
unfoldable pub lstrip : String → String
unfolding is_space
lstrip [] = []
lstrip (c ∷ s) = let rest = lstrip s in if is_space c then rest else c ∷ s

-- `s.rstrip()`
unfoldable pub rstrip : String → String
unfolding is_blank
rstrip [] = []
rstrip (c ∷ s) = let rest = rstrip s in if is_blank (c ∷ s) then [] else c ∷ rest

unfoldable pub strip : String → String
unfolding lstrip rstrip
strip s = rstrip (lstrip s)

-- `s.partition(sep)` at the first separator: what stands before it, and what follows.
unfoldable pub before : ℕ → String → String
before k [] = []
before k (c ∷ s) = let rest = before k s in if nat_beq (code c) k then [] else c ∷ rest

unfoldable pub after : ℕ → String → String
after k [] = []
after k (c ∷ s) = let rest = after k s in if nat_beq (code c) k then s else rest

-- A code point in lower case, over the letters A to Z.
abbrev pub lower_code : ℕ → ℕ
lower_code c = if leb 65 c && leb c 90 then c + 32 else c

-- `s.lower() == t` for a text `t` of lower-case ASCII letters: no other character becomes one of
-- those of "true", "false" and "bearer", for which the program asks.
unfoldable pub lower_is : String → String → Bool
lower_is [] [] = true
lower_is [] (d ∷ t) = false
lower_is (c ∷ s) [] = false
lower_is (c ∷ s) (d ∷ t) = nat_beq (lower_code (code c)) (code d) && lower_is s t
