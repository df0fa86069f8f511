-- ===== src/TransferCache/Writes.antt =====
-- src/transfer_cache.rs: the words that a returned batch may write.
use rtmalloc.Base.{ℕ, refl, List, Ensures, Ensures->>=, Ensures-if, ◌==◌}
use rtmalloc.Build.{ResolvedConfig}
use rtmalloc.Central.Insert.{insert_range_dropping_lock}
use rtmalloc.Central.Writes.{SameBut, insert_range_dropping_lock-SameBut}
use rtmalloc.FreeObject.Links.{Links}
use rtmalloc.SizeClass.{SizeClassInfo, class_info}
use rtmalloc.TransferCache.{Middle, push, central_at, to_central, insert_range}

module _ (cfg : ResolvedConfig) (classes : List SizeClassInfo) (fuel : ℕ) where
  -- A batch that is returned keeps the words of all objects but its own.
  pub insert_range-SameBut :
      (cls head tail count : ℕ) (s : Middle) (xs : List ℕ)
      → Links s.words head xs
      → Ensures
          (λ r. SameBut xs s.words r.words)
          (insert_range cfg classes fuel cls head tail count s)
  unfolding insert_range
  insert_range-SameBut cls head tail count s xs links =
      let Q : Middle → Type 0 = λ r. SameBut xs s.words r.words in
      let returned : Ensures Q (to_central cfg classes fuel cls head count s) =
        Ensures->>= Q (insert_range_dropping_lock cfg head count (central_at cls s)) _
          (insert_range_dropping_lock-SameBut cfg head count (central_at cls s) xs links)
          (λ c same. same) in
      Ensures-if Q (count == (class_info classes cls).batch_size) _ _
        (Ensures-if Q (push cfg.max_transfer_slots head tail (s.caches cls)).0 _ _ (λ a o. refl)
          returned)
        returned
