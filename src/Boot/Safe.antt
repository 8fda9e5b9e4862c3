-- ===== src/Boot/Safe.antt =====
-- What an opening of resources leaves, and how openings are put together.
use ai_platform_template.Base.{◌≡◌, Bool, true, [], ◌∷◌, ◌++◌, arith, if_split}
use ai_platform_template.Base.Result.{ok, err}
use ai_platform_template.Config.{Settings}
use ai_platform_template.Boot.{
  Part, Boot, not_open, build_failed, Reply, ApplicationResources, then_open, opened, set_resources,
  construct, construct_plain, push, when,
}

-- Which of the resources that others need are open.
abbrev pub Up : Bool → Bool → Bool → Bool → ApplicationResources → Type 0
Up d x q m r = (r.sessionmaker ≡ d) × (r.redis ≡ x) × (r.queue_gateway ≡ q) × (r.mongo ≡ m)

-- The resources once those that others need have been opened; Mongo comes later.
abbrev pub Ready : Settings → Bool → ApplicationResources → Type 0
Ready s m = Up s.database_enabled s.redis_enabled s.queue_enabled m

module _ (fails : Part → Bool) where
  -- An opening that leaves resources with the property, or raises because a construction does.
  abbrev pub Safe : (ApplicationResources → Type 0) → Reply → Type 0
  Safe P (ok _, b) = P b.resources
  Safe P (err (build_failed part), b) = fails part ≡ true
  Safe P (err (not_open part), b) = ⊥

  module _ (P Q : ApplicationResources → Type 0) where
    pub then_open-Safe :
        (r : Reply) (next : Boot → Reply)
        → Safe P r
        → ((b : Boot) → P b.resources → Safe Q (next b))
        → Safe Q (then_open r next)
    then_open-Safe (err (build_failed part), b) next h n = h
    then_open-Safe (err (not_open part), b) next h n = h
    then_open-Safe (ok _, b) next h n = n b h

    -- A construction, and the resource that it sets.
    pub set-Safe :
        (r : Reply) (f : ApplicationResources → ApplicationResources)
        → Safe P r
        → ((x : ApplicationResources) → P x → Q (f x))
        → Safe Q (then_open r (set_resources f))
    set-Safe r f h k = then_open-Safe r (set_resources f) h (λ b p. k b.resources p)

  module _ (P : ApplicationResources → Type 0) where
    pub construct_plain-Safe :
        (part : Part) (b : Boot) → P b.resources → Safe P (construct_plain fails part b)
    unfolding construct_plain
    construct_plain-Safe part b h =
        if_split (λ (r : Reply). Safe P r) (fails part) (err (build_failed part), b)
          (ok tt, record b { built = b.built ++ (part ∷ []) }) (λ e. e) (λ e. h)

    pub construct-Safe : (part : Part) (b : Boot) → P b.resources → Safe P (construct fails part b)
    unfolding construct
    construct-Safe part b h =
        then_open-Safe P P (construct_plain fails part b) (push part)
          (construct_plain-Safe part b h) (λ c k. k)

    pub opened-Safe :
        (is_open : Bool) (part : Part) (next : Boot → Reply) (b : Boot)
        → is_open ≡ true
        → Safe P (next b)
        → Safe P (opened is_open part next b)
    opened-Safe is_open part next b o h =
        if_split (λ (r : Reply). Safe P r) is_open (next b) (err (not_open part), b) (λ e. h)
          (λ e. absurd (ground arith))

    pub when-Safe :
        (enabled : Bool) (next : Boot → Reply) (b : Boot)
        → P b.resources
        → (enabled ≡ true → Safe P (next b))
        → Safe P (when fails enabled next b)
    when-Safe enabled next b h n =
        if_split (λ (r : Reply). Safe P r) enabled (next b) (ok tt, b) n (λ e. h)
