-- ===== src/Config/Settings/Laws.antt =====
-- What the checks of the configuration's sections establish.
use v6proxy.Prelude.{◌≡◌, refl, subst, List, [], ◌∷◌, Result, ok, err, ◌>>=◌, All, map_err, arith}
use v6proxy.Text.{Text}
use v6proxy.Config.Pool
use v6proxy.Config.Pool.{V6Pool, PoolError}
use v6proxy.Config.Pool.Bounds.{IsPool, parse-IsPool}
use v6proxy.Config.Net.{IpNets, parse_net, parse_net_list}
use v6proxy.Config.Settings.{check_all, collect_pools}

module _ {E A B : Type 0} where
  -- A chain ends well only through its first step.
  pub bind-ok :
      (m : Result E A) (f : A → Result E B) (b : B)
      → (m >>= f) ≡ ok b
      → (a : A) × (m ≡ ok a) × (f a ≡ ok b)
  bind-ok (ok a) f b h = (a, refl, h)
  bind-ok (err e) f b h = absurd (ground (arith, h))

pub map_err-ok :
    {E F A : Type 0} (f : E → F) (r : Result E A) (a : A) → map_err f r ≡ ok a → r ≡ ok a
map_err-ok f (ok x) a h = ground (arith, h)
map_err-ok f (err e) a h = absurd (ground (arith, h))

-- Every text of the list passes.
abbrev pub Passes : {E A : Type 0} → (Text → Result E A) → List Text → Type 0
Passes {A = A} check = All (λ s. (a : A) × (check s ≡ ok a))

pub check_all-Passes :
    {E A : Type 0} (check : Text → Result E A) (xs : List Text)
    → check_all check xs ≡ ok tt
    → Passes check xs
unfolding check_all
check_all-Passes check [] h = tt
check_all-Passes check (s ∷ rest) h =
    let (a, passed, others) = bind-ok (check s) (λ _. check_all check rest) tt h in
    ((a, passed), check_all-Passes check rest others)

pub Passes-check_all :
    {E A : Type 0} (check : Text → Result E A) (xs : List Text)
    → Passes check xs
    → check_all check xs ≡ ok tt
unfolding check_all
Passes-check_all check [] h = refl
Passes-check_all check (s ∷ rest) ((a, passed), others) =
    rw passed (Passes-check_all check rest others)

pub collect_pools-IsPool :
    (xs : List Text) (pools : List V6Pool) → collect_pools xs ≡ ok pools → All IsPool pools
unfolding collect_pools
collect_pools-IsPool [] [] h = tt
collect_pools-IsPool [] (p ∷ ps) h = absurd (ground (arith, h))
collect_pools-IsPool (s ∷ rest) pools h =
    let (pool, parsed, more) =
      bind-ok (Pool.parse s) (λ p. collect_pools rest >>= λ ps. ok (p ∷ ps)) pools h in
    let (others, collected, whole) =
      bind-ok (collect_pools rest) (λ ps. ok (pool ∷ ps)) pools more in
    let same : pool ∷ others ≡ pools = ground (arith, whole) in
    subst (All IsPool) same (parse-IsPool s pool parsed, collect_pools-IsPool rest others collected)

pub parse_net_list-Passes :
    (nets : IpNets) (xs : List Text) (ns : List nets.Net)
    → parse_net_list nets xs ≡ ok ns
    → Passes (parse_net nets) xs
unfolding parse_net_list
parse_net_list-Passes nets [] ns h = tt
parse_net_list-Passes nets (e ∷ rest) ns h =
    let (n, parsed, more) =
      bind-ok (parse_net nets e) (λ m. parse_net_list nets rest >>= λ ms. ok (m ∷ ms)) ns h in
    let (others, listed, whole) = bind-ok (parse_net_list nets rest) (λ ms. ok (n ∷ ms)) ns more in
    ((n, parsed), parse_net_list-Passes nets rest others listed)
