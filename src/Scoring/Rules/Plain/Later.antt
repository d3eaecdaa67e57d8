-- ===== src/Scoring/Rules/Plain/Later.antt =====
-- src/scoring.rs, `evaluate`: every rule's findings, with what they have in common.
use owlzops_mapper.Common.{Text, List, All, drop}
use owlzops_mapper.Utils.Provenance.{Host}
use owlzops_mapper.Report.{Facts}
use owlzops_mapper.Scoring.Rules.{host_findings}
use owlzops_mapper.Scoring.Rules.Memory.{regions}
use owlzops_mapper.Scoring.Rules.Plain.{AllPlain}
use owlzops_mapper.Scoring.Rules.Plain.Capabilities.{
  critical_capabilities-AllPlain, ambient_capabilities-AllPlain,
}
use owlzops_mapper.Scoring.Rules.Plain.Containers.{
  container_limits-AllPlain, runtime_tampering-AllPlain, firewall_bypass-AllPlain,
  sensitive_mounts-AllPlain, container_health-AllPlain,
}
use owlzops_mapper.Scoring.Rules.Plain.Files.{
  file_capabilities-AllPlain, setuid_files-AllPlain, ebpf_objects-AllPlain,
}
use owlzops_mapper.Scoring.Rules.Plain.Ghosts.{
  ghost_pids-AllPlain, cron_jobs-AllPlain, secret_leaks-AllPlain, self_leaks-AllPlain,
}
use owlzops_mapper.Scoring.Rules.Plain.Hygiene.{
  account_hygiene-AllPlain, systemd_hardening-AllPlain,
}
use owlzops_mapper.Scoring.Rules.Plain.Kernel.{
  kernel_taint-AllPlain, cpu_mitigations-AllPlain, confinement-AllPlain, hidden_modules-AllPlain,
  ftrace_hooks-AllPlain, core_pattern-AllPlain, lockdown-AllPlain,
}
use owlzops_mapper.Scoring.Rules.Plain.Listeners.{listeners-AllPlain, reachable_implants-AllPlain}
use owlzops_mapper.Scoring.Rules.Plain.Memory.{
  classic_injections-AllPlain, unattributed_payloads-AllPlain, memory_anomalies-AllPlain,
  provisional_regions-AllPlain, unlink_ghosts-AllPlain, jit_advisories-AllPlain,
}
use owlzops_mapper.Scoring.Rules.Plain.Pam.{pam_injections-AllPlain}
use owlzops_mapper.Scoring.Rules.Plain.Persistence.{
  preload_injections-AllPlain, ld_so_conf-AllPlain, generators-AllPlain,
}
use owlzops_mapper.Scoring.Rules.Plain.Processes.{
  known_malware_running-AllPlain, fileless-AllPlain, fileless_self-AllPlain,
  fileless_privileged-AllPlain, mimics-AllPlain, mount_masking-AllPlain, reverse_shells-AllPlain,
}
use owlzops_mapper.Scoring.Rules.Plain.Reliability.{host_reliability-AllPlain, ntp-AllPlain}
use owlzops_mapper.Scoring.Rules.Plain.Sshd.{sshd_directives-AllPlain, environment_keys-AllPlain}
use owlzops_mapper.Scoring.Rules.Plain.Units.{
  live_rogue-AllPlain, live_vendor-AllPlain, dormant-AllPlain, weak_targets-AllPlain,
  unpackaged_targets-AllPlain,
}

module _ (host : Host) (file_name : Text → Text) (bucket_order : List Text → List Text) where
  -- The rules behind those of the passwordless-root class.
  pub later_rules-AllPlain :
      (r : Facts) → All AllPlain (drop 12 (host_findings host file_name bucket_order r))
  unfolding host_findings
  later_rules-AllPlain r = (
    sshd_directives-AllPlain r,
    (
      environment_keys-AllPlain r,
      (
        listeners-AllPlain host r,
        (
          reachable_implants-AllPlain r,
          (
            known_malware_running-AllPlain r,
            (
              fileless-AllPlain r,
              (
                fileless_self-AllPlain r,
                (
                  fileless_privileged-AllPlain r,
                  (
                    mimics-AllPlain r,
                    (
                      mount_masking-AllPlain r,
                      (
                        reverse_shells-AllPlain r,
                        (
                          classic_injections-AllPlain (regions host r),
                          (
                            unattributed_payloads-AllPlain (regions host r),
                            (
                              memory_anomalies-AllPlain bucket_order (regions host r),
                              (
                                provisional_regions-AllPlain bucket_order (regions host r),
                                (
                                  unlink_ghosts-AllPlain (regions host r),
                                  (
                                    file_capabilities-AllPlain file_name r,
                                    (
                                      setuid_files-AllPlain r,
                                      (
                                        ebpf_objects-AllPlain r,
                                        (
                                          kernel_taint-AllPlain r,
                                          (
                                            cpu_mitigations-AllPlain r,
                                            (
                                              confinement-AllPlain r,
                                              (
                                                hidden_modules-AllPlain r,
                                                (
                                                  ftrace_hooks-AllPlain r,
                                                  (
                                                    preload_injections-AllPlain r,
                                                    (
                                                      ld_so_conf-AllPlain r,
                                                      (
                                                        generators-AllPlain r,
                                                        (
                                                          pam_injections-AllPlain r,
                                                          (
                                                            live_rogue-AllPlain r,
                                                            (
                                                            live_vendor-AllPlain r,
                                                            (
                                                            dormant-AllPlain r,
                                                            (
                                                            weak_targets-AllPlain r,
                                                            (
                                                            unpackaged_targets-AllPlain r,
                                                            (
                                                            core_pattern-AllPlain r,
                                                            (
                                                            lockdown-AllPlain r,
                                                            (
                                                            jit_advisories-AllPlain bucket_order
                                                            (regions host r),
                                                            (
                                                            ghost_pids-AllPlain r,
                                                            (
                                                            cron_jobs-AllPlain r,
                                                            (
                                                            secret_leaks-AllPlain r,
                                                            (
                                                            self_leaks-AllPlain r,
                                                            (
                                                            critical_capabilities-AllPlain r,
                                                            (
                                                            ambient_capabilities-AllPlain r,
                                                            (
                                                            container_limits-AllPlain r,
                                                            (
                                                            runtime_tampering-AllPlain r,
                                                            (
                                                            firewall_bypass-AllPlain r,
                                                            (
                                                            account_hygiene-AllPlain r,
                                                            (
                                                            systemd_hardening-AllPlain r,
                                                            (
                                                            sensitive_mounts-AllPlain r,
                                                            (
                                                            container_health-AllPlain r,
                                                            (
                                                            host_reliability-AllPlain r,
                                                            (ntp-AllPlain r, tt),
                                                            ),
                                                            ),
                                                            ),
                                                            ),
                                                            ),
                                                            ),
                                                            ),
                                                            ),
                                                            ),
                                                            ),
                                                            ),
                                                            ),
                                                            ),
                                                            ),
                                                            ),
                                                            ),
                                                            ),
                                                            ),
                                                            ),
                                                            ),
                                                            ),
                                                          ),
                                                        ),
                                                      ),
                                                    ),
                                                  ),
                                                ),
                                              ),
                                            ),
                                          ),
                                        ),
                                      ),
                                    ),
                                  ),
                                ),
                              ),
                            ),
                          ),
                        ),
                      ),
                    ),
                  ),
                ),
              ),
            ),
          ),
        ),
      ),
    ),
  )
