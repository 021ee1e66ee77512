-- ===== src/Unarchiver/Options.antt =====
-- internal/unarchiver/unarchive_options.go and the `runtimeOption` of unarchiver.go.
use photon_container.Base.{ℕ, Option, none, Bool, true, false, List, [], ◌∷◌}

pub record RuntimeOption : Type 0 where
  pub no_compression : Bool

abbrev pub UnarchiveOption : Type 0
UnarchiveOption = RuntimeOption → RuntimeOption

-- `NoCompression`
abbrev pub no_compression : UnarchiveOption
no_compression o = record o { no_compression = true }

abbrev apply_options : List UnarchiveOption → RuntimeOption → RuntimeOption
apply_options [] o = o
apply_options (f ∷ rest) o = apply_options rest (f o)

-- The loop at the head of `unarchive`.
abbrev pub runtime_option : List UnarchiveOption → RuntimeOption
runtime_option options = apply_options options (record { no_compression = false })

-- The `Unarchiver` of unarchiver.go, and unarchiver_options.go. A limit is the number of bytes in a
-- second that it was given as, before its conversion to a float64; none is `math.MaxFloat64`.
pub record Unarchiver : Type 0 where
  pub unarchive_limit_bytes_per_sec : Option ℕ

abbrev pub UnarchiverOption : Type 0
UnarchiverOption = Unarchiver → Unarchiver

-- `WithUnarchiveLimitBytesPerSec`
abbrev pub with_unarchive_limit_bytes_per_sec : Option ℕ → UnarchiverOption
with_unarchive_limit_bytes_per_sec limit u = record u { unarchive_limit_bytes_per_sec = limit }

abbrev set_options : List UnarchiverOption → Unarchiver → Unarchiver
set_options [] u = u
set_options (f ∷ rest) u = set_options rest (f u)

-- `NewUnarchiver`
unfoldable pub new_unarchiver : List UnarchiverOption → Unarchiver
new_unarchiver options = set_options options (record { unarchive_limit_bytes_per_sec = none })
