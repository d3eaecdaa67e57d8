-- ===== src/Examples/VerdictCache.antt =====
-- src/verdict_cache.rs at a concrete file.
use owlzops_mapper.Common.{
  ◌+◌, ◌≤◌, Text, codes, [], Option, none, some, ◌≡◌, ◌≢◌, refl, ◌↔◌, true, text_beq, text_beq_iff,
  false,
}
use owlzops_mapper.VerdictCache.{
  Cache, Metadata, Verdict, pos, benign, lookup, record_verdict, ttl_secs,
}
use owlzops_mapper.VerdictCache.Fresh.{lookup-record_verdict}

abbrev empty_cache : Cache
empty_cache = record { entries = []; dirty = false }

abbrev shell : Text
shell = codes "/usr/bin/bash"

abbrev other_shell : Text
other_shell = codes "/usr/bin/dash"

abbrev shell_file : Metadata
shell_file = record { ino = 77; mtime = pos 1700000000; len = 1446024 }

abbrev stat : Text → Option Metadata
stat path = some shell_file

backwards_test :
    lookup (record_verdict empty_cache (some 2000) stat shell benign).0 (some 1000) stat shell
    ≡ none
unfolding lookup record_verdict text_beq
backwards_test = refl

fresh_test :
    lookup (record_verdict empty_cache (some 2000) stat shell benign).0 (some 3000) stat shell
    ≡ some benign
unfolding lookup record_verdict text_beq owlzops_mapper.VerdictCache.integer_beq
fresh_test = refl

apart : shell ≢ other_shell
unfolding text_beq
apart e = let q : false ≡ true = (text_beq_iff shell other_shell).1 e in cc

lookup-record_verdict_example :
    (lookup (record_verdict empty_cache (some 2000) stat shell benign).0 (some 3000) stat shell
      ≡ some benign)
    ↔ ((2000 ≤ 3000)
        × (3000 ≤ 2000 + ttl_secs)
        × (shell_file.ino ≡ shell_file.ino)
        × (shell_file.mtime ≡ shell_file.mtime)
        × (shell_file.len ≡ shell_file.len))
lookup-record_verdict_example =
    lookup-record_verdict empty_cache 2000 stat stat shell shell_file shell_file benign 3000 refl
      refl
