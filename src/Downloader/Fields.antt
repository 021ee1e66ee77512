-- ===== src/Downloader/Fields.antt =====
-- `strings.Fields` of Go, on the bytes of a text: `getMD5Sum` of internal/downloader/downloader.go
-- splits a body by it.
use photon_container.Base.{
  ℕ, ◌-◌, ◌≡◌, refl, Bool, true, false, not, ◌||◌, ◌&&◌, ◌==◌, leb, List, [], ◌∷◌, if◌then◌else◌,
}
use photon_container.Os.Files.{Bytes}

abbrev wide_space : ℕ → ℕ → ℕ → Bool
wide_space a b c =
    (a == 0xE1 && b == 0x9A && c == 0x80)
    || (a == 0xE2 && b == 0x80 && (leb 0x80 c && leb c 0x8A || c == 0xA8 || c == 0xA9 || c == 0xAF))
    || (a == 0xE2 && b == 0x81 && c == 0x9F)
    || (a == 0xE3 && b == 0x80 && c == 0x80)

abbrev narrow_space : ℕ → Bool
narrow_space a = a == 32 || leb 9 a && leb a 13

-- How many bytes the white space has that the bytes begin with, as UTF-8; none begins inside the
-- encoding of another character.
abbrev space_width : Bytes → ℕ
space_width [] = 0
space_width (a ∷ []) = if narrow_space a then 1 else 0
space_width (a ∷ b ∷ []) =
    if narrow_space a then 1 else if a == 0xC2 && (b == 0x85 || b == 0xA0) then 2 else 0
space_width (a ∷ b ∷ c ∷ s) =
    if narrow_space a
    then 1
    else if a == 0xC2 && (b == 0x85 || b == 0xA0)
    then 2
    else if wide_space a b c
    then 3
    else 0

-- Each byte with whether it is of a white space; the number is of those that still are.
mark : ℕ → Bytes → List (Bool × ℕ)
mark left [] = []
mark left (b ∷ s) =
    let width = if left == 0 then space_width (b ∷ s) else left in
    (not (width == 0), b) ∷ mark (width - 1) s

push_byte : ℕ → List Bytes → List Bytes
push_byte b [] = (b ∷ []) ∷ []
push_byte b (f ∷ rest) = (b ∷ f) ∷ rest

group : List (Bool × ℕ) → List Bytes
group [] = []
group ((true, _) ∷ s) = [] ∷ group s
group ((false, b) ∷ s) = push_byte b (group s)

without_empty : List Bytes → List Bytes
without_empty [] = []
without_empty ([] ∷ rest) = without_empty rest
without_empty ((b ∷ f) ∷ rest) = (b ∷ f) ∷ without_empty rest

unfoldable pub fields : Bytes → List Bytes
unfolding mark group without_empty push_byte
fields s = without_empty (group (mark 0 s))

-- Spaces of one, of two and of three bytes, also at the ends.
fields_test :
    fields (32 ∷ 97 ∷ 98 ∷ 32 ∷ 9 ∷ 99 ∷ 0xE2 ∷ 0x80 ∷ 0xA8 ∷ 100 ∷ 0xC2 ∷ 0xA0 ∷ 10 ∷ [])
    ≡ (97 ∷ 98 ∷ []) ∷ (99 ∷ []) ∷ (100 ∷ []) ∷ []
unfolding fields
fields_test = refl
