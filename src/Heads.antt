-- ===== src/Heads.antt =====
-- internal/hugo/models/build_state.go: the repository heads before and after the update of the
-- clones, and whether no head has changed. A nil map is the empty one; a path is a text.
pub mod Unchanged
mod Tests
use Prim.Native.String.{String}
use docbuilder.Common.{ℕ, Bool, true, false, ◌&&◌, Option, none, some, List, [], ◌∷◌}
use docbuilder.Common.Text.{StringMap, get, put, str_eq}

-- GitState, less the list of repositories, their paths and the workspace
pub record GitState : Type 0 where
  pub pre_heads : StringMap String
  pub post_heads : StringMap String
  pub commit_dates : StringMap ℕ

-- SetPreHead
pub set_pre_head : String → String → GitState → GitState
set_pre_head repo hash gs = record gs { pre_heads = put gs.pre_heads repo hash }

-- SetPostHead
pub set_post_head : String → String → GitState → GitState
set_post_head repo hash gs = record gs { post_heads = put gs.post_heads repo hash }

-- SetCommitDate
pub set_commit_date : String → ℕ → GitState → GitState
set_commit_date repo date gs = record gs { commit_dates = put gs.commit_dates repo date }

-- GetCommitDate
pub get_commit_date : String → GitState → Option ℕ
get_commit_date repo gs = get gs.commit_dates repo

same_head : Option String → String → Bool
same_head none pre = false
same_head (some post) pre = str_eq pre post

-- The loop of `AllReposUnchangedComputed`
all_same : StringMap String → StringMap String → Bool
unfolding same_head
all_same post [] = true
all_same post ((repo, pre) ∷ rest) = same_head (get post repo) pre && all_same post rest

unchanged_heads : StringMap String → StringMap String → Bool
unfolding all_same
unchanged_heads post [] = false
unchanged_heads post (e ∷ pre) = all_same post (e ∷ pre)

-- AllReposUnchangedComputed
pub all_repos_unchanged_computed : GitState → Bool
unfolding unchanged_heads
all_repos_unchanged_computed gs = unchanged_heads gs.post_heads gs.pre_heads
