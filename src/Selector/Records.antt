-- ===== src/Selector/Records.antt =====
-- The tables of core/src/net/selector/mod.rs and its methods, with the calls of the poller in
-- mio_adapter.rs. The tables are statics, which the selectors of all event loops share; each event loop
-- has a poller of its own, given by an index. `watched` is not in the source: it is what each poller has
-- been told last of each descriptor, by the calls that it accepted.
use Prim.Native.Nat.{bit_xor}
use open_coroutine.Prelude.{
  ℕ, ◌/◌, ◌%◌, Bool, true, false, Option, none, some, List, [], ◌∷◌, ◌==◌, ◌||◌, if◌then◌else◌,
}
use open_coroutine.Maps.{Maps}

-- What a poller is asked to watch a descriptor for.
pub data Interest : Type 0 where
  read write read_and_write : Interest

-- The calls of the poller: descriptor, token as the poller is given it, interest. The poller's answer
-- to each is given.
pub data Request : Type 0 where
  do_register do_reregister : ℕ → ℕ → Interest → Request
  do_deregister : ℕ → Request

pub record Tables (𝓜 : Maps) : Type 0 where
  pub token_fd : 𝓜.Map ℕ
  pub readable : 𝓜.Map (Unit {0})
  pub readable_token : 𝓜.Map ℕ
  pub writable : 𝓜.Map (Unit {0})
  pub writable_token : 𝓜.Map ℕ
  pub watched : ℕ → ℕ → Option (Interest × ℕ)

abbrev pub is_some {ℓ} : {A : Type ℓ} → Option A → Bool
is_some none = false
is_some (some a) = true

abbrev pub or_zero : Option ℕ → ℕ
or_zero none = 0
or_zero (some n) = n

-- `Option::or`
abbrev pub or_else : Option ℕ → Option ℕ → Option ℕ
or_else none o = o
or_else (some n) o = some n

abbrev pub watch :
    ℕ → ℕ → Option (Interest × ℕ) → (ℕ → ℕ → Option (Interest × ℕ)) → ℕ → ℕ → Option (Interest × ℕ)
watch i fd w old k j = if i == k then (if fd == j then w else old k j) else old k j

-- `(token >> 32) as u32 ^ token as u32`: what the poller is given of a token, and what its events carry.
unfoldable pub fold_token : ℕ → ℕ
fold_token token = bit_xor (token / 4294967296 % 4294967296) (token % 4294967296)

-- What an event says: its token, and whether it is readable and writable.
pub record Event : Type 0 where
  pub token : ℕ
  pub is_readable : Bool
  pub is_writable : Bool

module _ (𝓜 : Maps) where
  abbrev pub contains : 𝓜.Map (Unit {0}) → ℕ → Bool
  contains m fd = is_some ((𝓜.laws (Unit {0})).get fd m)

  abbrev pub get : ℕ → 𝓜.Map ℕ → Option ℕ
  get = (𝓜.laws ℕ).get

  abbrev insert : ℕ → ℕ → 𝓜.Map ℕ → 𝓜.Map ℕ
  insert = (𝓜.laws ℕ).insert

  abbrev remove : ℕ → 𝓜.Map ℕ → 𝓜.Map ℕ
  remove = (𝓜.laws ℕ).remove

  abbrev set_insert : ℕ → 𝓜.Map (Unit {0}) → 𝓜.Map (Unit {0})
  set_insert fd = (𝓜.laws (Unit {0})).insert fd tt

  abbrev set_remove : ℕ → 𝓜.Map (Unit {0}) → 𝓜.Map (Unit {0})
  set_remove = (𝓜.laws (Unit {0})).remove

  -- The selector of the event loop `i`.
  module _ (i : ℕ) (ok : Request → Bool) where
    -- The tables after the call, and whether it is `Ok`.
    unfoldable pub register : Tables 𝓜 → ℕ → ℕ → Interest → Tables 𝓜 × Bool
    register s fd token interest =
        if ok (do_register fd (fold_token token) interest)
        then (
          record s {
            token_fd = insert token fd s.token_fd;
            watched = watch i fd (some (interest, fold_token token)) s.watched;
          },
          true,
        )
        else (s, false)

    unfoldable pub reregister : Tables 𝓜 → ℕ → ℕ → Interest → Tables 𝓜 × Bool
    reregister s fd token interest =
        if ok (do_reregister fd (fold_token token) interest)
        then (
          record s {
            token_fd = insert token fd s.token_fd;
            watched = watch i fd (some (interest, fold_token token)) s.watched;
          },
          true,
        )
        else (s, false)

    unfoldable pub deregister : Tables 𝓜 → ℕ → ℕ → Tables 𝓜 × Bool
    deregister s fd token =
        if ok (do_deregister fd)
        then (
          record s { token_fd = remove token s.token_fd; watched = watch i fd none s.watched },
          true,
        )
        else (s, false)

    -- `self.reregister(…).or_else(|_| self.register(…))` where the other interest is recorded, and
    -- otherwise `self.register(…)`.
    enlist : Bool → Tables 𝓜 → ℕ → ℕ → Interest → Tables 𝓜 × Bool
    unfolding register reregister
    enlist other s fd token single =
        let (s', done) = reregister s fd token read_and_write in
        if other
        then (if done then (s', true) else register s fd token read_and_write)
        else register s fd token single

    unfoldable pub add_read_event : Tables 𝓜 → ℕ → ℕ → Tables 𝓜 × Bool
    unfolding enlist
    add_read_event s fd token =
        let (s', done) = enlist (contains s.writable fd) s fd token read in
        let recorded = record s' {
          readable = set_insert fd s'.readable;
          readable_token = insert fd token s'.readable_token;
        } in
        if contains s.readable fd
        then (s, true)
        else (if done then (recorded, true) else (s', false))

    unfoldable pub add_write_event : Tables 𝓜 → ℕ → ℕ → Tables 𝓜 × Bool
    unfolding enlist
    add_write_event s fd token =
        let (s', done) = enlist (contains s.readable fd) s fd token write in
        let recorded = record s' {
          writable = set_insert fd s'.writable;
          writable_token = insert fd token s'.writable_token;
        } in
        if contains s.writable fd
        then (s, true)
        else (if done then (recorded, true) else (s', false))

    -- Both `remove`s are made: the argument of `or` is computed first.
    unfoldable pub del_event : Tables 𝓜 → ℕ → Tables 𝓜 × Bool
    unfolding deregister
    del_event s fd =
        let token = or_zero (or_else (get fd s.readable_token) (get fd s.writable_token)) in
        let s1 = record s {
          readable_token = remove fd s.readable_token;
          writable_token = remove fd s.writable_token;
        } in
        let (s2, done) = deregister s1 fd token in
        let cleaned = record s2 {
          readable = set_remove fd s2.readable;
          writable = set_remove fd s2.writable;
        } in
        if contains s.readable fd || contains s.writable fd
        then (if done then (cleaned, true) else (s2, false))
        else (s, true)

    unfoldable pub del_read_event : Tables 𝓜 → ℕ → Tables 𝓜 × Bool
    unfolding reregister del_event
    del_read_event s fd =
        let token = or_zero (get fd s.writable_token) in
        let (s', done) = reregister s fd token write in
        let cleaned = record s' {
          readable = set_remove fd s'.readable;
          readable_token = remove fd s'.readable_token;
        } in
        if contains s.readable fd
        then (if contains s.writable fd
            then (if done then (cleaned, true) else (s', false))
            else del_event s fd)
        else (s, true)

    unfoldable pub del_write_event : Tables 𝓜 → ℕ → Tables 𝓜 × Bool
    unfolding reregister del_event
    del_write_event s fd =
        let token = or_zero (get fd s.readable_token) in
        let (s', done) = reregister s fd token read in
        let cleaned = record s' {
          writable = set_remove fd s'.writable;
          writable_token = remove fd s'.writable_token;
        } in
        if contains s.writable fd
        then (if contains s.readable fd
            then (if done then (cleaned, true) else (s', false))
            else del_event s fd)
        else (s, true)

  -- One event of the loop of `select`.
  unfoldable pub on_event : Tables 𝓜 → Event → Tables 𝓜
  on_event s e =
      let fd = or_zero (get e.token s.token_fd) in
      record s {
        token_fd = remove e.token s.token_fd;
        readable_token = (if e.is_readable then remove fd s.readable_token else s.readable_token);
        writable_token = (if e.is_writable then remove fd s.writable_token else s.writable_token);
      }

  -- The loop over the events that `do_select` leaves.
  unfoldable pub on_events : Tables 𝓜 → List Event → Tables 𝓜
  unfolding on_event
  on_events s [] = s
  on_events s (e ∷ es) = on_events (on_event s e) es
