-- ===== src/Heads/Tests.antt =====
-- Two repositories of which one moves, and the theorem about unchanged heads at them.
use docbuilder.Common.{◌≡◌, ◌≢◌, ◌↔◌, refl, true, false, []}
use docbuilder.Common.Text.{get, put}
use docbuilder.Heads.{GitState, set_pre_head, set_post_head, all_repos_unchanged_computed}
use docbuilder.Heads.Unchanged.{
  Reaches, begins, sets_pre, sets_post, IsSameAt, all_repos_unchanged_iff,
}

abbrev nothing : GitState
nothing = record { pre_heads = []; post_heads = []; commit_dates = [] }

abbrev moved : GitState
moved =
    set_post_head "api" "c3"
      (set_post_head "docs" "a1" (set_pre_head "api" "b2" (set_pre_head "docs" "a1" nothing)))

moved_changed : all_repos_unchanged_computed moved ≡ false
unfolding all_repos_unchanged_computed set_post_head set_pre_head get put
moved_changed = refl

moved_reached : Reaches moved
moved_reached =
    sets_post "api" "c3" (sets_post "docs" "a1" (sets_pre "api" "b2" (sets_pre "docs" "a1" begins)))

all_repos_unchanged_iff_example :
    (all_repos_unchanged_computed moved ≡ true)
    ↔ ((moved.pre_heads ≢ []) × IsSameAt moved.pre_heads moved.post_heads)
all_repos_unchanged_iff_example = all_repos_unchanged_iff moved_reached
