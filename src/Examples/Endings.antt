-- ===== src/Examples/Endings.antt =====
-- A stream that its client leaves before any usage is reported (policy/quota.go).
use llmgw.Base.{String-discrete, ℤ, ◌≡◌, ◌+◌, refl, pos, some, Bool, true}
use llmgw.Amounts.{zero64}
use llmgw.Store.Usage.{ActualUsage}
use llmgw.Store.State.{Readings}
use llmgw.Store.Outcome.{Context}
use llmgw.Gateway.Usage.{Usage, zero_usage, is_zero_usage}
use llmgw.Gateway.Dispatch.{aborted}
use llmgw.Policy.Quota.Ending.{RequestEnd, finalizes, settled_by, end_request}
use llmgw.Policy.Quota.Ending.Settled.{IsGone}
use llmgw.Policy.Quota.Ending.Used.{IsSettled, end_request-IsSettled}
use llmgw.Examples.Stores.{live_context, one_estimate, one_ticket, one_store, new_year, at}

-- A flat price.
abbrev price : ℤ → Usage → ℤ
price flat usage = flat

abbrev no_attempts : Bool → ActualUsage
no_attempts failed = record { input_tokens = zero64; output_tokens = zero64; spend_micros = zero64 }

abbrev left_stream : RequestEnd ℤ
left_stream = finalizes true aborted (some (pos 150)) zero_usage one_estimate no_attempts

abbrev soon : Context × Readings
soon = (live_context, at (new_year + 5_000_000_000))

-- It is charged what was reserved for it.
left_stream_charge :
    settled_by price left_stream
    ≡ some (record { input_tokens = pos 100; output_tokens = pos 50; spend_micros = pos 150 }, true)
unfolding settled_by is_zero_usage
left_stream_charge = refl

end_request-IsSettled_example :
    IsSettled soon soon one_ticket one_estimate (pos 60_000_000_000) one_store price left_stream (
      end_request soon soon one_ticket one_estimate
        (pos 60_000_000_000)
        price
        left_stream
        one_store)
    × IsGone "r1"
        (end_request soon soon one_ticket one_estimate
          (pos 60_000_000_000)
          price
          left_stream
          one_store).0
unfolding String-discrete
end_request-IsSettled_example =
    end_request-IsSettled price soon soon one_ticket one_estimate (pos 60_000_000_000) left_stream
      one_store refl refl refl
