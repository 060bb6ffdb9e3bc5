-- ===== src/Heap/Classes.antt =====
-- The size classes of the heap.
use experiment.Base.{
  ℕ, ◌-◌, ◌<◌, ◌≤◌, ◌≡◌, refl, Bool, true, false, if◌then◌else◌, Option, none, some, arith, inl,
  inr, leb, ◌⊎◌,
}
use experiment.Heap.{get_cache_index, get_cache_size, capacity}

-- What a class is for a size: it is large enough, the class below it is not, and at least one of its
-- slots fits a page; and the class's own size is of that class.
pub record FitsClass (size index : ℕ) : Type 0 where
  pub large : size ≤ get_cache_size index
  pub least : (index ≡ 0) ⊎ (get_cache_size (index - 1) < size)
  pub own : get_cache_index (get_cache_size index) ≡ some index
  pub fits_page : 0 < capacity (get_cache_size index)

unfoldable pub ClassOf : (size : ℕ) → Option ℕ → Type 0
ClassOf size (some index) = FitsClass size index
ClassOf size none = 2048 < size

class_by :
    (t : Bool) (size index : ℕ) (rest : Option ℕ)
    → (t ≡ true → FitsClass size index)
    → (t ≡ false → ClassOf size rest)
    → ClassOf size (if t then some index else rest)
unfolding ClassOf
class_by true size index rest fits others = fits refl
class_by false size index rest fits others = others refl

-- get_cache_index gives the smallest class that holds the size, which holds at least one object in a
-- page, and gives none exactly for a size above 2048.
pub get_cache_index-ClassOf : (size : ℕ) → ClassOf size (get_cache_index size)
unfolding get_cache_index get_cache_size capacity ClassOf
get_cache_index-ClassOf size =
    class_by (leb size 32) size 0 _
      (λ e. record { large = ground arith; least = inl refl; own = refl; fits_page = omega arith })
      (λ e32.
        class_by (leb size 64) size 1 _
          (λ e. record {
            large = ground arith;
            least = inr (ground arith);
            own = refl;
            fits_page = omega arith;
          })
          (λ e64.
            class_by (leb size 128) size 2 _
              (λ e. record {
                large = ground arith;
                least = inr (ground arith);
                own = refl;
                fits_page = omega arith;
              })
              (λ e128.
                class_by (leb size 256) size 3 _
                  (λ e. record {
                    large = ground arith;
                    least = inr (ground arith);
                    own = refl;
                    fits_page = omega arith;
                  })
                  (λ e256.
                    class_by (leb size 512) size 4 _
                      (λ e. record {
                        large = ground arith;
                        least = inr (ground arith);
                        own = refl;
                        fits_page = omega arith;
                      })
                      (λ e512.
                        class_by (leb size 1024) size 5 _
                          (λ e. record {
                            large = ground arith;
                            least = inr (ground arith);
                            own = refl;
                            fits_page = omega arith;
                          })
                          (λ e1024.
                            class_by (leb size 2048) size 6 none
                              (λ e. record {
                                large = ground arith;
                                least = inr (ground arith);
                                own = refl;
                                fits_page = omega arith;
                              })
                              (λ e2048. ground arith)))))))
