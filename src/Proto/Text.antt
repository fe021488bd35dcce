-- ===== src/Proto/Text.antt =====
-- Text as C reads it.
use smart_lighting_system.Base.{◌<◌, ◌≡◌, refl, [], ◌∷◌, arith, eqb, All, if◌then◌else◌}
use smart_lighting_system.Proto.Messages.{Bytes}

-- What C reads of s.c_str(): the characters before the first NUL.
unfoldable pub c_str : Bytes → Bytes
c_str [] = []
c_str (c ∷ cs) = let rest = c_str cs in if eqb c 0 then [] else c ∷ rest

-- No character is NUL.
abbrev pub NoNul : Bytes → Type 0
NoNul s = All (λ c. 0 < c) s

pub c_str_lem : (s : Bytes) → NoNul s → c_str s ≡ s
unfolding c_str
c_str_lem [] h = refl
c_str_lem (c ∷ cs) h = ground (arith, c_str_lem cs h.1)
