-- ===== src/Tests/Provider.antt =====
-- An answer of the Toucan interface.
use stellar_kraal_contract.Common.{ℕ, ◌+◌, ◌≡◌, refl, [], length}
use stellar_kraal_contract.Common.Int.{pos, ◌*ℤ◌}
use stellar_kraal_contract.Common.Json.{Fields, field, end, int, text, object, get, is_true}
use stellar_kraal_contract.Common.Result.{ok}
use stellar_kraal_contract.Common.Text.{Str, codes, str_eq}
use stellar_kraal_contract.Common.Utf8.{decode_utf8}
use stellar_kraal_contract.Adapter.FetchPrice.{ProviderEnv, fetch_price, result_with, first_of}
use stellar_kraal_contract.Adapter.Priced.{Fetched, fetch_price-Fetched}
use stellar_kraal_contract.Adapter.Provider.{Provider, toucan}
use stellar_kraal_contract.Tests.Fixed.{Fixed, fixed_float, quot}

abbrev answer : Str
answer = codes "{}"

abbrev body : Fields Fixed
body =
    field (codes "lastPrice") (int (pos 3))
      (field (codes "updatedAt") (text (codes "2024-07-04T00:00:00Z")) end)

abbrev provider_env : ProviderEnv Fixed ℕ
provider_env = record {
  round = λ x. ok (quot x 1000);
  urlopen = λ r s. (ok answer, s + 1);
  json_loads = λ t. ok (object body);
  now = λ s. (pos 9, s);
  local_time = λ t. ok (pos (length t));
  show = λ v. codes "{}";
  message = λ e. [];
  status = λ e. codes "404";
  reason = λ e. codes "Not Found";
}

abbrev bct : Provider
bct = toucan (codes "BCT") [] (codes "https://api.toucan.earth/carbon/v1/") (codes "BCT")

-- The price in millionths, and the first 19 characters of the time.
priced_run :
    fetch_price provider_env bct 0
    ≡ (ok (result_with provider_env bct (int (pos 3)) (pos 3_000_000) (pos 19)), 1)
unfolding fetch_price decode_utf8 first_of toucan get str_eq is_true ◌*ℤ◌
priced_run = refl

fetch_price-Fetched_example : Fetched provider_env bct 0 (fetch_price provider_env bct 0)
fetch_price-Fetched_example = fetch_price-Fetched provider_env bct 0
