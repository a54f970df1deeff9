-- ===== src/State.antt =====
-- globals.h and the variables of namespace `cc` in chromecast.h: the state that the program's parts
-- share. `double`, the operating system and the SSL library are parameters.
pub mod View
pub mod World
pub mod Bag
pub mod Follows
use sponsoryeet.Prelude.{ℕ, ◌≡◌, Bool, true, false, Option, List, ℤ, pos, negsuc, Bytes}

-- What the code does with a `double`. `of_int` converts an integer, which is how the model writes the
-- constants, `to_int` is the conversion to `int`, and `to_string` is `std::to_string`.
pub record Double (D : Type 0) : Type 0 where
  pub lt : D → D → Bool
  pub le : D → D → Bool
  pub add : D → D → D
  pub sub : D → D → D
  pub mul : D → D → D
  pub div : D → D → D
  pub round : D → D
  pub ceil : D → D
  pub of_int : ℤ → D
  pub to_int : D → ℤ
  pub largest : D
  pub to_string : D → Bytes

-- What the proofs use of the order, for every value, not-a-number included, and of -1.
pub record IsDouble {D : Type 0} (double : Double D) : Type 0 where
  pub lt_irrefl : (x : D) → double.lt x x ≡ false
  pub lt_trans : (x y z : D) → double.lt x y ≡ true → double.lt y z ≡ true → double.lt x z ≡ true
  pub minus_one_lt : double.lt (double.of_int (negsuc 0)) (double.of_int (pos 0)) ≡ true
  pub minus_one_ceil : double.to_int (double.ceil (double.of_int (negsuc 0))) ≡ negsuc 0

pub record Segment (D : Type 0) : Type 0 where
  pub begin : D
  pub end : D

pub record Globals (D : Type 0) : Type 0 where
  pub running : Bool
  pub verbose : Bool
  pub adblock : Bool
  pub youtube : Bool
  pub current_segments : List (Segment D)
  pub next_segment_start : D
  pub current_video : Bytes
  pub current_position : D
  pub current_duration : D
  pub last_position_fetched : D
  pub currently_playing : Bool
  pub last_seek : ℕ
  pub last_ping : ℕ
  pub current_status : Bytes
  pub categories : List Bytes
  -- of namespace `cc`
  pub dest : Bytes
  pub media_session : Bytes
  pub request_id : ℕ

-- An IPv4 address and a port.
pub record Address : Type 0 where
  pub host : ℕ
  pub port : ℕ

-- The calls into the system and the SSL library, over a state of the world. Time is in seconds. A
-- pointer is a number, 0 for a null pointer. The amount that `ssl_read` returns counts the bytes at
-- the start of its buffer that it has filled. `assert` is the macro of the C library. `ssl_ctx_set_verify` is
-- given the mode and the callback.
pub record Os (W : Type 0) : Type 0 where
  pub time : W → ℕ × W
  pub errno : W → ℕ
  pub tls_client_method : W → ℕ × W
  pub ssl_ctx_new : ℕ → W → ℕ × W
  pub assert : Bool → W → Unit {0} × W
  pub ssl_ctx_set_verify : ℕ → ℕ → (ℤ → ℕ → ℤ) → W → Unit {0} × W
  pub ssl_ctx_free : ℕ → W → Unit {0} × W
  pub ssl_new : ℕ → W → ℕ × W
  pub ssl_free : ℕ → W → Unit {0} × W
  pub ssl_set_fd : ℕ → ℤ → W → ℤ × W
  pub ssl_connect : ℕ → W → ℤ × W
  pub ssl_write : ℕ → Bytes → W → ℤ × W
  pub ssl_read : ℕ → ℕ → W → (ℤ × Bytes) × W
  pub socket : W → ℤ × W
  pub set_user_timeout : ℤ → ℕ → W → ℤ × W
  pub connect : ℤ → Address → W → ℤ × W
  pub close : ℤ → W → Unit {0} × W
  pub gethostbyname : Bytes → W → Option ℕ × W

-- The matching of texts: `std::regex_search`, with the groups of a match, the whole match first, and
-- `strtod`, with the number of bytes that it consumes, which may set `errno` to `erange`.
pub record Matcher (D W : Type 0) : Type 0 where
  pub regex_search : Bytes → Bytes → Option (List Bytes)
  pub regex_search_all : Bytes → Bytes → List (List Bytes)
  pub strtod : Bytes → W → (D × ℕ) × W
  pub erange : ℕ
  pub clear_errno : W → Unit {0} × W
  pub is_finite : D → Bool

-- The program's variables and the world.
pub record Machine (D W : Type 0) : Type 0 where
  pub globals : Globals D
  pub world : W

abbrev pub Action : Type 0 → Type 0 → Type 0 → Type 0
Action D W A = Machine D W → A × Machine D W

infixl 5 ◌>>=◌ ◌>>◌
abbrev pub ◌>>=◌ : {D W A B : Type 0} → Action D W A → (A → Action D W B) → Action D W B
◌>>=◌ m f s = let (a, s') = m s in f a s'

abbrev pub ◌>>◌ : {D W A B : Type 0} → Action D W A → Action D W B → Action D W B
◌>>◌ m k s = let (a, s') = m s in k s'

module _ {D W : Type 0} where
  abbrev pub return : {A : Type 0} → A → Action D W A
  return a s = (a, s)

  abbrev pub get : Action D W (Globals D)
  get s = (s.globals, s)

  -- Assignments to global variables.
  abbrev pub modify : (Globals D → Globals D) → Action D W (Unit {0})
  modify f s = (tt, record s { globals = f s.globals })

  -- A call into the system.
  abbrev pub call : {A : Type 0} → (W → A × W) → Action D W A
  call f s = let (a, w) = f s.world in (a, record s { world = w })
