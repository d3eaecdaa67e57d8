-- ===== src/Examples/Scoring.antt =====
-- src/scoring.rs at concrete findings.
use owlzops_mapper.Scoring.Classify.{
  classify_setuid, classify_cap_binary, core_pattern_is_trusted, ambient_escalation_weight, has_bit,
  benign_caps,
}
use owlzops_mapper.Scoring.Classify.Weights.{ambient_escalation_weight-zero_iff}
use owlzops_mapper.Report.Files.{SetuidFinding, FileCapFinding, dpkg, rpm}
use owlzops_mapper.Common.{
  ℕ, ◌<◌, ◌^◌, true, false, contains, is_some, nat_eq, ◌≤◌, ◌+◌, List, [], ◌∷◌, none, some, codes,
  ◌≡◌, refl, ◌↔◌, Any, min, decimal,
}
use owlzops_mapper.Scoring.Finding.{Finding, Category, Scanner, evidence_list}
use owlzops_mapper.Scoring.Score.{score}
use owlzops_mapper.Scoring.Score.Sum.{live_weight, score_exact}
use owlzops_mapper.Scoring.Verdict.{
  critical, compromised, compromise_ids, security_verdict_from_findings, has,
}
use owlzops_mapper.Scoring.Verdict.Laws.{IsLiveIn, verdict-compromised_iff}

abbrev pub rootkit : Finding
rootkit = record {
  id = "SEC-020";
  source = Scanner.security;
  title = codes "Kernel module hidden from /proc/modules";
  category = Category.security;
  weight = 60;
  evidence = codes "module evil";
  suppressed = none;
  cis_ref = none;
}

abbrev pub no_firewall : Finding
no_firewall = record {
  id = "SEC-001";
  source = Scanner.network;
  title = codes "Firewall inactive";
  category = Category.security;
  weight = 30;
  evidence = codes "No active firewall (ufw/firewalld/nftables/iptables)";
  suppressed = none;
  cis_ref = some "CIS 3.5.1.1";
}

abbrev pub muted : Finding
muted = record {
  id = "SEC-027";
  source = Scanner.security;
  title = codes "JIT memory";
  category = Category.security;
  weight = 12;
  evidence = [];
  suppressed = some (codes "JIT advisory");
  cis_ref = none;
}

abbrev pub host_findings : List Finding
host_findings = no_firewall ∷ muted ∷ rootkit ∷ []

total_test : (score host_findings).total ≡ 60
unfolding score
total_test = refl

verdict_test : security_verdict_from_findings host_findings ≡ compromised
unfolding security_verdict_from_findings compromise_ids has
verdict_test = refl

critical_test : security_verdict_from_findings (no_firewall ∷ muted ∷ []) ≡ critical
unfolding security_verdict_from_findings compromise_ids has
critical_test = refl

evidence_test : evidence_list (codes "a" ∷ codes "b" ∷ codes "c" ∷ []) 2 ≡ codes "a; b; +1 more"
unfolding evidence_list decimal
evidence_test = refl

score_exact_example :
    ((score host_findings).security ≡ min (live_weight Category.security host_findings) 60)
    × ((score host_findings).reliability ≡ min (live_weight Category.reliability host_findings) 30)
    × ((score host_findings).hygiene ≡ min (live_weight Category.hygiene host_findings) 10)
    × ((score host_findings).total
        ≡ (score host_findings).security
          + (score host_findings).reliability
          + (score host_findings).hygiene)
score_exact_example = score_exact host_findings

verdict-compromised_iff_example :
    (security_verdict_from_findings host_findings ≡ compromised)
    ↔ Any (IsLiveIn compromise_ids) host_findings
verdict-compromised_iff_example = verdict-compromised_iff host_findings

abbrev helper : SetuidFinding
helper = record {
  path = codes "/usr/bin/helper";
  setuid = true;
  setgid = false;
  root_owner = true;
  package_name = none;
}

setuid_test : (classify_setuid helper rpm).0 ≡ 6
unfolding classify_setuid owlzops_mapper.Utils.Paths.starts_with_any
    owlzops_mapper.Scoring.Classify.setuid_system_dirs
setuid_test = refl

core_test : core_pattern_is_trusted (codes "|/tmp/apport %p") ≡ false
unfolding core_pattern_is_trusted owlzops_mapper.Common.text_beq
    owlzops_mapper.Utils.Paths.is_volatile_exec_path owlzops_mapper.Utils.Paths.volatile_prefixes
core_test = refl

-- Bit 21 is CAP_SYS_ADMIN, bit 14 CAP_IPC_LOCK.
ambient_test : (ambient_escalation_weight (2 ^ 21) ≡ 12) × (ambient_escalation_weight (2 ^ 14) ≡ 0)
unfolding ambient_escalation_weight benign_caps
ambient_test = (refl, refl)

abbrev ping : FileCapFinding
ping = record {
  path = codes "/home/u/ping";
  capabilities = codes "CAP_NET_RAW" ∷ codes "CAP_SYS_ADMIN(inh)" ∷ [];
  package_name = none;
}

ping_test : (classify_cap_binary (λ p. codes "ping") ping dpkg).0 ≡ 8
unfolding classify_cap_binary owlzops_mapper.Common.text_beq
ping_test = refl

ambient_escalation_weight-zero_iff_example :
    (ambient_escalation_weight 16384 ≡ 0)
    ↔ ((i : ℕ) → i < 64 → has_bit 16384 i ≡ true → contains benign_caps i ≡ true)
ambient_escalation_weight-zero_iff_example = ambient_escalation_weight-zero_iff 16384

abbrev reordered : List Finding
reordered = muted ∷ no_firewall ∷ rootkit ∷ []
