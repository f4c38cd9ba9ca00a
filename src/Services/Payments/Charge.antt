-- ===== src/Services/Payments/Charge.antt =====
-- `call_psp` of src/workers/payment.rs.
use payman.Prelude.{String, Option, none, some, str_eq, if◌then◌else◌}
use payman.Models.{PspChargeRequest, PspChargeResponse, PspResult}
use payman.Http.{HttpReply, is_success}
use payman.Store.{World}

-- The payment provider: its reply to `POST {psp_url}/charge`, and the world when it arrives, since
-- other requests run while this one waits.
pub record Psp : Type 0 where
  pub charge : PspChargeRequest → World → HttpReply PspChargeResponse × World

abbrev or_default : Option String → String → String
or_default none s = s
or_default (some t) s = t

-- The `match` on a body that could be read.
unfoldable pub read_charge : PspChargeResponse → PspResult
read_charge psp =
    if str_eq psp.status "succeeded"
    then PspResult.succeeded (or_default psp.psp_ref "")
    else PspResult.failed (or_default psp.code "unknown")

abbrev read_body : Option PspChargeResponse → PspResult
read_body none = PspResult.network_error
read_body (some psp) = read_charge psp

-- The `match` on the reply.
unfoldable pub read_reply : HttpReply PspChargeResponse → PspResult
unfolding read_charge
read_reply HttpReply.elapsed = PspResult.timed_out
read_reply HttpReply.refused = PspResult.network_error
read_reply (HttpReply.response status body) =
    if is_success status then read_body body else PspResult.network_error

unfoldable pub call_psp : Psp → String → String → World → PspResult × World
unfolding read_reply
call_psp psp attempt_id card_token w =
    let (reply, w') = psp.charge (record { card_token = card_token; attempt_id = attempt_id }) w in
    (read_reply reply, w')
