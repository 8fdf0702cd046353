-- ===== src/Config/Validate/Passed.antt =====
-- What it takes for a configuration to pass.
use docbuilder.Common.{Bool, true, false, ◌≡◌, refl, sym, ap, ◌∙◌, List}
use docbuilder.Config.{Library, ForgeConfig, Config}
use docbuilder.Config.Validate.{
  ConfigError, Checked, refused, passed, Check, unless, and_then, validate_forges,
  validate_repositories,
}
use docbuilder.Config.Validate.Domains.{
  validate_build, validate_daemon, validate_paths, validate_versioning, validate_config,
}

pub unless-passed {ℓ} :
    {A : Type ℓ} (t : Bool) (e : ConfigError) (rest : Checked A) (a : A)
    → unless t e rest ≡ passed a
    → (t ≡ false) × (rest ≡ passed a)
unless-passed true e rest a h = absurd (cc)
unless-passed false e rest a h = (refl, h)

pub and_then-passed {ℓ κ} :
    {A : Type ℓ} {B : Type κ} (x : Checked A) (next : A → Checked B) (b : B)
    → and_then x next ≡ passed b
    → (a : A) × (x ≡ passed a) × (next a ≡ passed b)
and_then-passed (refused e) next b h = absurd (cc)
and_then-passed (passed a) next b h = (a, refl, h)

-- Every part passes; only the forges may have changed.
pub record IsValid (l : Library) (c result : Config) : Type 0 where
  pub forges : validate_forges l c.forges c.repositories ≡ passed result.forges
  pub build_answer : Bool
  pub build : validate_build l c.build ≡ passed build_answer
  pub daemon_answer : Bool
  pub daemon : validate_daemon l c.daemon ≡ passed daemon_answer
  pub unchanged : result ≡ record c { forges = result.forges }

-- The six checks in turn
in_turn :
    Config → Checked (List ForgeConfig) → Check → Check → Check → Check → Check → Checked Config
in_turn c forges repositories build daemon paths versioning = and_then forges (λ fs.
    and_then repositories (λ _. and_then build (λ _.
      and_then daemon
        (λ _. and_then paths (λ _. and_then versioning (λ _. passed (record c { forges = fs })))))))

in_turn-passed :
    (c result : Config) (f : Checked (List ForgeConfig)) (r b d p v : Check)
    → in_turn c f r b d p v ≡ passed result
    → (f ≡ passed result.forges)
      × ((x : Bool) × (b ≡ passed x))
      × ((x : Bool) × (d ≡ passed x))
      × (result ≡ record c { forges = result.forges })
unfolding in_turn
in_turn-passed c result (refused e) r b d p v h = absurd (cc)
in_turn-passed c result (passed fs) (refused e) b d p v h = absurd (cc)
in_turn-passed c result (passed fs) (passed x) (refused e) d p v h = absurd (cc)
in_turn-passed c result (passed fs) (passed x) (passed y) (refused e) p v h = absurd (cc)
in_turn-passed c result (passed fs) (passed x) (passed y) (passed z) (refused e) v h = absurd (cc)
in_turn-passed c result (passed fs) (passed x) (passed y) (passed z) (passed u) (refused e) h =
    absurd (cc)
in_turn-passed c result (passed fs) (passed x) (passed y) (passed z) (passed u) (passed w) h =
    let same : record c { forges = fs } ≡ result = cc in
    (
      ap (λ t. passed t.forges) same,
      (y, refl),
      (z, refl),
      sym same ∙ ap (λ t. record c { forges = t.forges }) same,
    )

pub validate_config-IsValid :
    (l : Library) (c result : Config) → validate_config l c ≡ passed result → IsValid l c result
unfolding validate_config
validate_config-IsValid l c result h =
    let (f, (x, b), (y, d), same) =
      in_turn-passed c result (validate_forges l c.forges c.repositories)
        (validate_repositories c.repositories) (validate_build l c.build)
        (validate_daemon l c.daemon) (validate_paths l c.output c.daemon)
        (validate_versioning c.versioning) (unfold in_turn in h) in
    record {
      forges = f;
      build_answer = x;
      build = b;
      daemon_answer = y;
      daemon = d;
      unchanged = same;
    }
