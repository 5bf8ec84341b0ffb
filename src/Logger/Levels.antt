-- ===== src/Logger/Levels.antt =====
-- The names of the log levels (src/util/logger.cpp).
use ntonix.Common.{
  ◌≡◌, ◌↔◌, ◌⊎◌, inl, inr, refl, List, [], ◌∷◌, map, some, arith, to_lower, text_beq_iff, Text,
  codes,
}
use ntonix.Logger.{
  LogLevel, trace, debug, info, warn, error, critical, off, level_named, parse_level,
}

-- The names that a level may be given by, in lower case
abbrev pub names : LogLevel → List Text
names trace = codes "trace" ∷ []
names debug = codes "debug" ∷ []
names info = codes "info" ∷ []
names warn = codes "warn" ∷ codes "warning" ∷ []
names error = codes "error" ∷ codes "err" ∷ []
names critical = codes "critical" ∷ codes "crit" ∷ codes "fatal" ∷ []
names off = codes "off" ∷ codes "none" ∷ []

abbrev pub IsOneOf : Text → List Text → Type 0
IsOneOf s [] = ⊥
IsOneOf s (t ∷ []) = s ≡ t
IsOneOf s (t ∷ u ∷ ts) = (s ≡ t) ⊎ IsOneOf s (u ∷ ts)

named-level : (t : Text) (l : LogLevel) → IsOneOf t (names l) → level_named t ≡ some l
unfolding level_named
named-level t trace e = rw e refl
named-level t debug e = rw e refl
named-level t info e = rw e refl
named-level t warn (inl e) = rw e refl
named-level t warn (inr e) = rw e refl
named-level t error (inl e) = rw e refl
named-level t error (inr e) = rw e refl
named-level t critical (inl e) = rw e refl
named-level t critical (inr (inl e)) = rw e refl
named-level t critical (inr (inr e)) = rw e refl
named-level t off (inl e) = rw e refl
named-level t off (inr e) = rw e refl

level-named : (t : Text) (l : LogLevel) → level_named t ≡ some l → IsOneOf t (names l)
unfolding level_named
level-named t trace e = grind (arith, text_beq_iff)
level-named t l e = grind (arith, text_beq_iff)

-- A text is read as a level exactly if, in lower case, it is one of the level's names.
pub parse_level_iff :
    (s : Text) (l : LogLevel) → (parse_level s ≡ some l) ↔ IsOneOf (map to_lower s) (names l)
unfolding parse_level
parse_level_iff s l = (level-named (map to_lower s) l, named-level (map to_lower s) l)
