-- ===== src/KnownHosts/Glob/Rounds.antt =====
-- One round of the loop of `glob_match` in src/known_hosts.rs, as equations.
use owlzops_mapper.Common.{
  ℕ, suc, List, none, some, ◌≡◌, arith, get_elem?, drop, if◌then◌else◌, ◌==◌, nat_eq, ◌||◌,
}
use owlzops_mapper.KnownHosts.Glob.{Star, loop, retry, only_stars}

module _ (p t : List ℕ) where
  pub loop-end :
      (f pi ti : ℕ) (s : Star)
      → get_elem? t ti ≡ none
      → loop (suc f) p t pi ti s ≡ some (only_stars (drop pi p))
  unfolding loop
  loop-end f pi ti s e = ground (arith, e)

  pub loop-out :
      (f b pi ti : ℕ) (s : Star)
      → get_elem? t ti ≡ some b
      → get_elem? p pi ≡ none
      → loop (suc f) p t pi ti s ≡ retry s (loop f p t)
  unfolding loop
  loop-out f b pi ti s e q = ground (arith, e, q)

  pub loop-round :
      (f a b pi ti : ℕ) (s : Star)
      → get_elem? t ti ≡ some b
      → get_elem? p pi ≡ some a
      → loop (suc f) p t pi ti s ≡ (
          if a == b'?' || a == b
          then loop f p t (suc pi) (suc ti) s
          else if a == b'*'
          then loop f p t (suc pi) ti (some (pi, ti))
          else retry s (loop f p t))
  unfolding loop
  loop-round f a b pi ti s e q = ground (arith, e, q)
