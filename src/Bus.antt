-- ===== src/Bus.antt =====
-- internal/daemon/events/bus.go: the bus as a state that its operations change in steps. A step is
-- what one goroutine does while the others wait: under the write lock, at one send, or between
-- locks. A subscription and its channel have one number. Types are named by strings.
pub mod Steps
pub mod Publishers
pub mod Invariant
pub mod Safety
pub mod Serving
pub mod Delivery
mod Tests
use Prim.Native.String.{String}
use docbuilder.Common.{
  ℕ, zero, suc, ◌+◌, ◌≡◌, Bool, true, false, not, ◌&&◌, ◌||◌, Option, none, some, List, [], ◌∷◌,
  ◌++◌, if◌then◌else◌, ◌==◌, ltb, length,
}
use docbuilder.Common.Text.{str_eq}

-- Package reflect's view of the types: which are interfaces, and what implements what
pub record Types : Type 0 where
  pub is_interface : String → Bool
  pub implements : String → String → Bool

pub record Event : Type 0 where
  pub number : ℕ
  pub kind : String

-- An entry of b.subs
pub record Subscription : Type 0 where
  pub channel : ℕ
  pub kind : String

-- A Publish that holds the read lock: the channels it has delivered to, and those still to come
pub record Publishing : Type 0 where
  pub event : Event
  pub served : List ℕ
  pub waiting : List ℕ

-- Bus, with its channels. `closed` are the channels closed, `buffers` hold what was sent and not yet
-- received, `received` what was. `starting` are the Subscribe calls between the test of isClosed and
-- the lock, `arriving` the Publish calls there. `closing` are the channels that Close, its lock
-- released, still has to close. `panicked` says that a Publish sent on a closed channel, or that a
-- channel was closed which a Publish had still to serve, and may have been blocked at.
pub record Bus : Type 0 where
  pub subs : List Subscription
  pub next_id : ℕ
  pub is_closed : Bool
  pub close_locked : Bool
  pub closed : List ℕ
  pub capacity : ℕ → ℕ
  pub buffers : ℕ → List Event
  pub received : ℕ → List Event
  pub starting : List Subscription
  pub arriving : List Event
  pub publishing : List Publishing
  pub closing : List ℕ
  pub panicked : Bool

-- NewBus
unfoldable pub new_bus : Bus
new_bus = record {
  subs = [];
  next_id = 0;
  is_closed = false;
  close_locked = false;
  closed = [];
  capacity = λ c. 0;
  buffers = λ c. [];
  received = λ c. [];
  starting = [];
  arriving = [];
  publishing = [];
  closing = [];
  panicked = false;
}

unfoldable pub has : List ℕ → ℕ → Bool
has [] c = false
has (d ∷ ds) c = (d == c) || has ds c

unfoldable pub without : List ℕ → ℕ → List ℕ
without [] c = []
without (d ∷ ds) c = let rest = without ds c in if d == c then rest else d ∷ rest

unfoldable pub channels : List Subscription → List ℕ
channels [] = []
channels (s ∷ ss) = s.channel ∷ channels ss

unfoldable pub without_channel : List Subscription → ℕ → List Subscription
without_channel [] c = []
without_channel (s ∷ ss) c =
    let rest = without_channel ss c in if s.channel == c then rest else s ∷ rest

abbrev pub set_at {ℓ} : {A : Type ℓ} → (ℕ → A) → ℕ → A → ℕ → A
set_at f c v d = if c == d then v else f d

unfoldable pub nth {ℓ} : {A : Type ℓ} → List A → ℕ → Option A
nth [] i = none
nth (x ∷ xs) zero = some x
nth (x ∷ xs) (suc i) = nth xs i

unfoldable pub remove_at {ℓ} : {A : Type ℓ} → List A → ℕ → List A
remove_at [] i = []
remove_at (x ∷ xs) zero = xs
remove_at (x ∷ xs) (suc i) = x ∷ remove_at xs i

unfoldable pub replace_at {ℓ} : {A : Type ℓ} → List A → ℕ → A → List A
replace_at [] i y = []
replace_at (x ∷ xs) zero y = y ∷ xs
replace_at (x ∷ xs) (suc i) y = x ∷ replace_at xs i y
