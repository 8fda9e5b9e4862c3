-- ===== src/Cache.antt =====
-- app/modules/platform/cache/adapters/memory.py: MemoryCacheGateway. The monotonic clock's reading is an
-- argument, one for all the reads of a `get_many`. Keys stand without the prefix that `_key` puts before each of them; values are opaque.
pub mod Expiry
use ai_platform_template.Base.{
  ℕ, ◌+◌, String, Bool, true, false, Option, none, some, List, [], ◌∷◌, leb, is_some, or_else,
  if◌then◌else◌,
}
use ai_platform_template.Base.Eq.{string_eq}
use ai_platform_template.Base.Result.{Exception, value_error, runtime_error, Result, ok, err}
use ai_platform_template.Dict.{Dict, lookup, insert, erase}

-- The stored values, each with its expiry.
abbrev pub Values : Type 0
Values = Dict String (String × ℕ)

pub record MemoryCacheGateway : Type 0 where
  pub default_ttl_seconds : ℕ
  pub values : Values
  pub closed : Bool

abbrev pub Reply : Type 0 → Type 0
Reply A = Result Exception A × MemoryCacheGateway

-- `__init__`
unfoldable pub build : ℕ → Result Exception MemoryCacheGateway
build default_ttl_seconds =
    if leb default_ttl_seconds 0
    then err value_error
    else ok (record { default_ttl_seconds = default_ttl_seconds; values = []; closed = false })

-- `_ensure_open`
abbrev when_open : {A : Type 0} → (MemoryCacheGateway → Reply A) → MemoryCacheGateway → Reply A
when_open body c = if c.closed then (err runtime_error, c) else body c

-- `_resolve_ttl`, with what follows it.
abbrev with_ttl :
    {A : Type 0} → Option ℕ → (ℕ → MemoryCacheGateway → Reply A) → MemoryCacheGateway → Reply A
with_ttl ttl_seconds body c =
    let ttl = or_else ttl_seconds c.default_ttl_seconds in
    if leb ttl 0 then (err value_error, c) else body ttl c

abbrev read_stored : ℕ → String → Option (String × ℕ) → Values → Option String × Values
read_stored now key none d = (none, d)
read_stored now key (some (value, expires_at)) d =
    if leb expires_at now then (none, erase key d) else (some value, d)

-- `_read`: an entry that has expired is removed.
unfoldable pub read : ℕ → String → Values → Option String × Values
unfolding erase
read now key d = read_stored now key (lookup key d) d

unfoldable pub get : ℕ → String → MemoryCacheGateway → Reply (Option String)
unfolding read
get now key =
    when_open (λ c. let (value, d) = read now key c.values in (ok value, record c { values = d }))

unfoldable pub set : ℕ → String → String → Option ℕ → MemoryCacheGateway → Reply (Unit {0})
set now key value ttl_seconds = when_open (
    with_ttl ttl_seconds
      (λ ttl c. (ok tt, record c { values = insert key (value, now + ttl) c.values })))

unfoldable pub delete : String → MemoryCacheGateway → Reply Bool
delete key =
    when_open (λ c. (ok (is_some (lookup key c.values)), record c { values = erase key c.values }))

abbrev presence : Reply (Option String) → Reply Bool
presence (ok value, c) = (ok (is_some value), c)
presence (err e, c) = (err e, c)

unfoldable pub exists : ℕ → String → MemoryCacheGateway → Reply Bool
unfolding get
exists now key c = presence (get now key c)

abbrev with_found : String → Option String → Dict String String → Dict String String
with_found key none result = result
with_found key (some value) result = insert key value result

-- The loop of `get_many`.
unfoldable pub read_many :
    ℕ → List String → Dict String String → Values → Dict String String × Values
unfolding read
read_many now [] result d = (result, d)
read_many now (key ∷ keys) result d =
    let (value, d') = read now key d in read_many now keys (with_found key value result) d'

unfoldable pub get_many : ℕ → List String → MemoryCacheGateway → Reply (Dict String String)
unfolding read_many
get_many now keys =
    when_open (λ c.
      let (result, d) = read_many now keys [] c.values in (ok result, record c { values = d }))

-- The loop of `set_many`.
unfoldable pub put_many : ℕ → Dict String String → Values → Values
unfolding insert
put_many expires_at [] d = d
put_many expires_at ((key, value) ∷ items) d =
    put_many expires_at items (insert key (value, expires_at) d)

unfoldable pub set_many : ℕ → Dict String String → Option ℕ → MemoryCacheGateway → Reply (Unit {0})
unfolding put_many
set_many now items ttl_seconds = when_open (
    with_ttl ttl_seconds
      (λ ttl c. (ok tt, record c { values = put_many (now + ttl) items c.values })))

-- The loop of `delete_many`.
unfoldable pub remove_many : List String → ℕ → Values → ℕ × Values
unfolding erase
remove_many [] removed d = (removed, d)
remove_many (key ∷ keys) removed d =
    remove_many keys (if is_some (lookup key d) then removed + 1 else removed) (erase key d)

unfoldable pub delete_many : List String → MemoryCacheGateway → Reply ℕ
unfolding remove_many
delete_many keys =
    when_open
      (λ c. let (removed, d) = remove_many keys 0 c.values in (ok removed, record c { values = d }))

unfoldable pub close : MemoryCacheGateway → MemoryCacheGateway
close c = record c { values = []; closed = true }
