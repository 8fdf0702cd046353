-- ===== src/Versioning/Plain.antt =====
-- A platform for the tests of the version manager, which compares patterns as plain texts.
use docbuilder.Common.{false, some}
use docbuilder.Common.Text.{str_eq}
use docbuilder.Versioning.{Platform}

abbrev pub plain : Platform
plain = record {
  match_path = λ pattern name. some (str_eq pattern name);
  match_regexp = λ pattern text. false;
  replace_regexp = λ pattern text by. text;
  replace_all = λ text old by. text;
  contains = λ text part. false;
  has_prefix = λ text prefix. str_eq text prefix;
  to_lower = λ t. t;
  upper_first = λ t. t;
  trim = λ text cutset. text;
  join = λ a b. a;
}
