-- ===== src/Errors/Transient.antt =====
-- internal/hugo/models/stages.go: which stage errors count as transient, described independently.
use docbuilder.Common.{true, ◌≡◌, ◌≢◌, inl, inr, ◌↔◌, Option, none, some, refl, arith, Bool-cases}
use docbuilder.Errors.{
  RetryStrategy, never, clone_error, discovery_error, hugo_error, warning, canceled, clone_repos,
  discover_docs, run_hugo, StageError, is_sentinel, as_classified, transient, transient_in, retries,
  StageName,
}
use docbuilder.Errors.Tree.{
  Holds, FirstStrategy, is_sentinel-Holds, Holds-is_sentinel, classified-FirstStrategy,
  FirstStrategy-classified,
}

-- The stage errors that are worth another attempt.
pub data IsRetryable (e : StageError) : Type 0 where
  clone_failed : e.kind ≢ canceled → e.stage ≡ clone_repos → Holds clone_error e.err → IsRetryable e
  clone_classified :
      (r : RetryStrategy)
      → e.kind ≢ canceled
      → e.stage ≡ clone_repos
      → FirstStrategy r e.err
      → r ≢ never
      → IsRetryable e
  hugo_failed : e.kind ≢ canceled → e.stage ≡ run_hugo → Holds hugo_error e.err → IsRetryable e
  discovery_warned :
      e.kind ≡ warning → e.stage ≡ discover_docs → Holds discovery_error e.err → IsRetryable e

-- The `switch` on the stage finds exactly the causes that are worth another attempt.
clone-IsRetryable :
    (e : StageError) (r : Option RetryStrategy)
    → e.kind ≢ canceled
    → e.stage ≡ clone_repos
    → as_classified e.err ≡ r
    → retries r ≡ true
    → IsRetryable e
clone-IsRetryable e none k s c h = cc
clone-IsRetryable e (some r) k s c h =
    clone_classified r k s (classified-FirstStrategy r e.err c) (λ n. ground arith)

transient_in-IsRetryable :
    (n : StageName) (e : StageError)
    → e.stage ≡ n
    → e.kind ≢ canceled
    → transient_in n e ≡ true
    → IsRetryable e
unfolding transient_in
transient_in-IsRetryable clone_repos e s k h = elim (Bool-cases (is_sentinel clone_error e.err)) [
  | inl yes_clone ↦ clone_failed k s (is_sentinel-Holds clone_error e.err yes_clone)
  | inr no_clone ↦ clone-IsRetryable e (as_classified e.err) k s refl (rw no_clone at h)
]
transient_in-IsRetryable run_hugo e s k h = hugo_failed k s (is_sentinel-Holds hugo_error e.err h)
transient_in-IsRetryable discover_docs e s k h =
    discovery_warned (ground arith) s (is_sentinel-Holds discovery_error e.err (ground arith))
transient_in-IsRetryable _ e s k h = cc

IsRetryable-transient : (e : StageError) → IsRetryable e → transient e ≡ true
unfolding transient
IsRetryable-transient e (clone_failed k s c) = ground (arith, Holds-is_sentinel clone_error e.err c)
IsRetryable-transient e (clone_classified r k s c n) =
    ground (arith, FirstStrategy-classified r e.err c)
IsRetryable-transient e (hugo_failed k s c) = ground (arith, Holds-is_sentinel hugo_error e.err c)
IsRetryable-transient e (discovery_warned k s c) =
    ground (arith, Holds-is_sentinel discovery_error e.err c)

-- `Transient` holds exactly of the errors that are not canceled and are: a clone failure whose cause
-- has ErrClone in its tree, or whose first ClassifiedError, each error before what it wraps and
-- several causes in their order, has any strategy but `never`; a Hugo failure whose cause has
-- ErrHugo in its tree; or a discovery warning whose cause has ErrDiscovery in its tree.
pub transient_iff : (e : StageError) → (transient e ≡ true) ↔ IsRetryable e
unfolding transient
transient_iff e = (
  λ h. transient_in-IsRetryable e.stage e refl (ground arith) (ground arith),
  IsRetryable-transient e,
)
