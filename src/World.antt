-- ===== src/World.antt =====
-- What the methods of the agent act on, and the way in which they chain.
-- The operating system, the network and the child process are an environment that answers each
-- call by its number. A method returns its result, or its error, and the world that it leaves.
pub mod Rules
pub mod Frames
pub mod Returns
pub mod Agreement
use photon_container.Base.{ℕ, suc, String, Bool, ◌||◌, Option, none, some, List}
use photon_container.Base.Time.{Time}
use photon_container.Os.Files.{FilePath, Files, Reader}
use photon_container.Photon.Types.{PhotonServer, ProcessState}
use photon_container.Photondata.Types.{Migrator}

-- An `error`. `wrap` is `fmt.Errorf` with `%w`, by its text up to the values that it prints,
-- and `joined` is `errors.Join`.
pub data Error : Type 0 where
  migration_in_progress : Error
  not_exist : Error
  failed : String → Error
  wrap : String → Error → Error
  joined : Error → Error → Error

-- `errors.Is(err, ErrMigrationInProgress)`
abbrev pub is_in_progress : Error → Bool
is_in_progress migration_in_progress = Bool.true
is_in_progress not_exist = Bool.false
is_in_progress (failed _) = Bool.false
is_in_progress (wrap _ e) = is_in_progress e
is_in_progress (joined e f) = is_in_progress e || is_in_progress f

-- `errors.Is(err, os.ErrNotExist)`
abbrev pub is_not_exist : Error → Bool
is_not_exist migration_in_progress = Bool.false
is_not_exist not_exist = Bool.true
is_not_exist (failed _) = Bool.false
is_not_exist (wrap _ e) = is_not_exist e
is_not_exist (joined e f) = is_not_exist e || is_not_exist f

pub data Result {ℓ} (A : Type ℓ) : Type ℓ where
  ok : A → Result A
  err : Error → Result A

pub data Method : Type 0 where
  get head post delete put other : Method

-- What an HTTP exchange came to: a URL that makes no request, an error, or a response with its
-- status, its body, and its `Last-Modified` header as `http.ParseTime` reads it.
pub data Reply : Type 0 where
  bad_url unreachable : Reply
  reply : (status : ℕ) (body : Reader) (last_modified : Option Time) → Reply

-- What GET status of Photon came to: no response that `json.Unmarshal` accepts, or the two fields,
-- the date as `time.Parse(time.RFC3339, …)` reads it.
pub data StatusReply : Type 0 where
  no_status : StatusReply
  status_json : (status : String) (import_date : Option Time) → StatusReply

-- The answers to the call of each number.
pub record Env : Type 0 where
  pub fault : ℕ → Bool  -- the call fails
  pub rand : ℕ → List String  -- the names that a `CreateTemp` tries
  pub gone : ℕ → FilePath → Bool  -- what a `RemoveAll` that fails has removed
  pub short : ℕ → ℕ  -- how many bytes a write that fails has written
  pub clock : ℕ → Time
  pub ending : ℕ → ProcessState  -- how the process ends that is waited for
  pub status : ℕ → StatusReply  -- GET status of Photon
  pub fetch : ℕ → Method → String → Reply  -- retryablehttp's client, its retries done

pub record World : Type 0 where
  pub env : Env
  pub now : ℕ  -- the number of the next call
  pub files : Files
  pub photon : PhotonServer
  pub migrator : Migrator

abbrev pub M {ℓ} : Type ℓ → Type ℓ
M A = World → Result A × World

module _ {ℓ} {A : Type ℓ} where
  abbrev pub pure : A → M A
  pure a w = (ok a, w)

  abbrev pub raise : Error → M A
  raise e w = (err e, w)

  -- `return fmt.Errorf("…: %w", err)` on an error of the call.
  abbrev wrap_result : String → Result A → Result A
  wrap_result text (ok a) = ok a
  wrap_result text (err e) = err (wrap text e)

  unfoldable pub wrapped : String → M A → M A
  wrapped text m w = let (r, w') = m w in (wrap_result text r, w')

  -- `defer` with a call whose error is only logged.
  unfoldable pub deferred : M (Unit {0}) → M A → M A
  deferred cleanup m w = let (r, w') = m w in (r, (cleanup w').1)

module _ {ℓ} {A : Type ℓ} where
  abbrev handled : (Error → M A) → Result A → World → Result A × World
  handled h (ok a) w = (ok a, w)
  handled h (err e) w = h e w

  -- `if err := m(); err != nil { … }`, the block with the error.
  unfoldable pub recover : M A → (Error → M A) → M A
  recover m h w = let (r, w') = m w in handled h r w'

module _ {ℓ κ} {A : Type ℓ} {B : Type κ} where
  abbrev continue : (A → M B) → Result A → World → Result B × World
  continue f (ok a) w = f a w
  continue f (err e) w = (err e, w)

  infixl 5 ◌>>=◌
  unfoldable pub ◌>>=◌ : M A → (A → M B) → M B
  ◌>>=◌ m f w = let (r, w') = m w in continue f r w'

module _ {ℓ κ} {A : Type ℓ} {B : Type κ} where
  abbrev branched : (A → M B) → (Error → M B) → Result A → World → Result B × World
  branched f h (ok a) w = f a w
  branched f h (err e) w = h e w

  -- `if a, err := m(); err != nil { … } else { … }`, the blocks with the value and with the error.
  unfoldable pub branch : M A → (A → M B) → (Error → M B) → M B
  branch m f h w = let (r, w') = m w in branched f h r w'

module _ {κ} {B : Type κ} where
  infixl 5 ◌>>◌
  abbrev pub ◌>>◌ : M (Unit {0}) → M B → M B
  m >> k = m >>= λ _. k

-- A call whose error is only logged, as in `if err := f(); err != nil { logger.Warn… }`.
unfoldable pub ignored : M (Unit {0}) → M (Unit {0})
ignored m w = (ok tt, (m w).1)

-- The number of the call, which is used up.
abbrev pub tick : World → World
tick w = record w { now = suc w.now }
