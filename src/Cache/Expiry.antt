-- ===== src/Cache/Expiry.antt =====
-- What the cache holds at a time, whatever it has swept.
use ai_platform_template.Base.{
  ℕ, ◌+◌, ◌≤◌, ◌<◌, ◌≡◌, refl, ap, ◌∙◌, String, false, Option, none, some, List, [], ◌∷◌, arith,
  leb, or_else, All, Option-cases, inl, inr, if◌then◌else◌,
}
use ai_platform_template.Base.Eq.{◌==◌, ==_iff, ==_refl, string_eq}
use ai_platform_template.Base.Result.{ok}
use ai_platform_template.Dict.{lookup}
use ai_platform_template.Dict.Laws.{lookup-insert, lookup-erase}
use ai_platform_template.Cache.{Values, MemoryCacheGateway, read, get, set, delete}

abbrev fresh : ℕ → Option (String × ℕ) → Option String
fresh now none = none
fresh now (some (value, expires_at)) = if leb expires_at now then none else some value

-- The value that a key has at a time: the stored one, until it expires.
abbrev pub live : ℕ → String → Values → Option String
live now key d = fresh now (lookup key d)

-- A read gives the live value, and its sweep changes no live value of any key, then or later.
pub read_sweeps :
    (now later : ℕ) (key j : String) (d : Values)
    → now ≤ later
    → ((read now key d).0 ≡ live now key d) × (live later j (read now key d).1 ≡ live later j d)
unfolding read
read_sweeps now later key j d h = elim (Option-cases (lookup key d)) [
  | inl missing ↦ ground arith
  | inr ((value, expires_at), q) ↦ ground (arith, lookup-erase key j d, ==_iff key j)
]

-- The calls that other users of the cache make.
pub data Event : Type 0 where
  getting : ℕ → String → Event
  setting : ℕ → String → String → Option ℕ → Event
  deleting : String → Event

unfoldable pub step : Event → MemoryCacheGateway → MemoryCacheGateway
unfolding get set delete
step (getting now key) c = (get now key c).1
step (setting now key value ttl) c = (set now key value ttl c).1
step (deleting key) c = (delete key c).1

unfoldable pub run : List Event → MemoryCacheGateway → MemoryCacheGateway
run [] c = c
run (e ∷ es) c = run es (step e c)

-- No write of the key, and no reading of the clock after `later`.
abbrev pub IsQuiet : ℕ → String → Event → Type 0
IsQuiet later key (getting now _) = now ≤ later
IsQuiet later key (setting _ j _ _) = (j == key) ≡ false
IsQuiet later key (deleting j) = (j == key) ≡ false

step-live :
    (later : ℕ) (key : String) (e : Event) (c : MemoryCacheGateway)
    → IsQuiet later key e
    → live later key (step e c).values ≡ live later key c.values
unfolding step
step-live later key (getting now j) c h = ground (arith, (read_sweeps now later j key c.values h).1)
step-live later key (setting now j value ttl) c h = ground (
  arith,
  lookup-insert j key (value, now + or_else ttl c.default_ttl_seconds) c.values,
  ==_iff j key,
)
step-live later key (deleting j) c h = ground (arith, lookup-erase j key c.values)

run-live :
    (later : ℕ) (key : String) (es : List Event) (c : MemoryCacheGateway)
    → All (IsQuiet later key) es
    → live later key (run es c).values ≡ live later key c.values
unfolding run
run-live later key [] c h = refl
run-live later key (e ∷ es) c h = run-live later key es (step e c) h.1 ∙ step-live later key e c h.0

closed-run :
    (es : List Event) (c : MemoryCacheGateway) → c.closed ≡ false → (run es c).closed ≡ false
unfolding run step get set delete
closed-run [] c h = h
closed-run (getting now j ∷ es) c h = closed-run es (step (getting now j) c) (ground arith)
closed-run (setting now j value ttl ∷ es) c h =
    closed-run es (step (setting now j value ttl) c) (ground arith)
closed-run (deleting j ∷ es) c h = closed-run es (step (deleting j) c) (ground arith)

get-live :
    (now : ℕ) (key : String) (c : MemoryCacheGateway)
    → c.closed ≡ false
    → (get now key c).0 ≡ ok (live now key c.values)
unfolding get
get-live now key c h = ground (arith, (read_sweeps now now key key c.values (omega arith)).0)

-- A value that an open cache was given with a positive time to live is what a later read gives until
-- that time is over, and nothing after, whatever other keys were read, written or deleted between and
-- whichever expired entries those calls swept.
pub set-get :
    (now later ttl : ℕ) (key value : String) (es : List Event) (c : MemoryCacheGateway)
    → c.closed ≡ false
    → 0 < ttl
    → All (IsQuiet later key) es
    → (get later key (run es (set now key value (some ttl) c).1)).0
      ≡ ok (if leb (now + ttl) later then none else some value)
unfolding set
set-get now later ttl key value es c o p h =
    get-live later key (run es written) (closed-run es written (ground arith))
    ∙ ap ok (run-live later key es written h ∙ stored)
  where
    written : MemoryCacheGateway
    written = (set now key value (some ttl) c).1

    stored : live later key written.values ≡ (if leb (now + ttl) later then none else some value)
    stored = ground (arith, lookup-insert key key (value, now + ttl) c.values, ==_refl key)
