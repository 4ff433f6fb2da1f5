-- ===== src/Config/Tests.antt =====
-- Configurations at concrete values, with a port for an address.
use msgtrans_rust.Base.{ℕ, ◌≡◌, refl, true, false, ok}
use msgtrans_rust.Config.{Values, parse_target}
use msgtrans_rust.Config.QuicClient
use msgtrans_rust.Config.QuicClient.{QuicClientConfig, with_verify_certificate}
use msgtrans_rust.Config.Laws.{merge_unverified}

abbrev ports : Values
ports = record {
  Address = ℕ;
  port = λ p. p;
  parse = λ text. ok 9000;
  local = λ p. p;
  to_text = λ p. "127.0.0.1:9000";
  to_string = λ n. "many";
  Float = ℕ;
  two = 20;
  three_halves = 15;
}

abbrev careful : QuicClientConfig ports
careful = with_verify_certificate ports true (QuicClient.default ports)

abbrev plain : QuicClientConfig ports
plain = record (QuicClient.default ports) { target_address = 9000 }

plain-new : QuicClient.new ports "localhost:9000" ≡ ok plain
unfolding QuicClient.new QuicClient.default parse_target
plain-new = refl

merge_unverified_example :
    ((QuicClient.merge ports careful plain).verify_certificate ≡ false)
    × ((QuicClient.merge ports plain careful).verify_certificate ≡ false)
merge_unverified_example = merge_unverified ports careful plain "localhost:9000" plain-new
