-- ===== src/Base/Trees.antt =====
-- Errors that wrap others: the trees that fmt.Errorf with %w and errors.Join build, and errors.Is.
use mathlib.Core.Bool.{Bool, false, ◌||◌}
use cross_border_ecommerce.Base.Errors.{Error, error_eq}

mutual
  -- An error, one that wraps an error, and one that joins several.
  pub data ErrorTree : Type 0 where
    leaf : Error → ErrorTree
    wrapped : ErrorTree → ErrorTree
    joined : ErrorTrees → ErrorTree

  pub data ErrorTrees : Type 0 where
    no_more : ErrorTrees
    another : ErrorTree → ErrorTrees → ErrorTrees

-- errors.Is for a sentinel.
unfoldable mutual
  pub errors_is : ErrorTree → Error → Bool
  errors_is (leaf e) target = error_eq e target
  errors_is (wrapped t) target = errors_is t target
  errors_is (joined ts) target = some_is ts target

  pub some_is : ErrorTrees → Error → Bool
  some_is no_more target = false
  some_is (another t ts) target = errors_is t target || some_is ts target
