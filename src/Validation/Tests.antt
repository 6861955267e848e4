-- ===== src/Validation/Tests.antt =====
-- A command that is accepted, one that is not, and the theorem at the first.
use enterprise_netsec_iac.Common.{ℕ, ◌*◌, ◌≡◌, refl, ok, error, command_rejected}
use enterprise_netsec_iac.Platform.{second}
use enterprise_netsec_iac.Policy.Protection.{block_ip, ip}
use enterprise_netsec_iac.Audit.{Command}
use enterprise_netsec_iac.Validation.{validate_command}
use enterprise_netsec_iac.Validation.Accepted.{IsAccepted, validate_command-IsAccepted}
use enterprise_netsec_iac.Fixtures.{toy_platform, toy_catalog, toy_command, command_at}

abbrev now : ℕ
now = 1001 * second

abbrev accepted_command : Command
accepted_command = record {
  raw = toy_command;
  idempotency_key = "key-1";
  policy_id = "contain-ip";
  target = record { type = ip; value = "203.0.113.9" };
  action = block_ip;
  ttl_seconds = 300;
}

not_an_address :
    validate_command toy_platform toy_catalog (λ v t. ok tt) (command_at "key-1" "example.net") now
    ≡ error command_rejected "block_ip command target is not a valid IP address"
unfolding validate_command
not_an_address = refl

validate_command-IsAccepted_example :
    IsAccepted toy_platform toy_catalog (λ v t. ok tt) toy_command now accepted_command
unfolding validate_command
validate_command-IsAccepted_example =
    validate_command-IsAccepted toy_platform toy_catalog (λ v t. ok tt) toy_command now refl
