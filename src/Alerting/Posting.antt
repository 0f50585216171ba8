-- ===== src/Alerting/Posting.antt =====
-- The requests of `_send_webhook` and their retry (webhook_sender.py).
use auditlens.Prelude.{ℕ, Bool, false, ◌&&◌, ◌||◌, ltb, leb, ◌==◌, suc, zero, if◌then◌else◌}

-- what `requests.post` does: a status, or an exception; of these two are retried
pub data Post : Type 0 where
  response : ℕ → Post
  connection_error timeout other_error : Post

pub data Answer : Type 0 where
  answered : ℕ → Answer
  raised_error : Answer

-- `raise_for_status` for a status from 500 on
abbrev pub checked_status : ℕ → Answer
checked_status status = if leb 500 status && ltb status 600 then raised_error else answered status

-- the answer with the number of requests so far, or what another try gives
abbrev pub after_post : Post → ℕ → Answer × ℕ → Answer × ℕ
after_post (response status) n again = (checked_status status, n)
after_post connection_error n again = again
after_post timeout n again = again
after_post other_error n again = (raised_error, n)

-- `_send_webhook_with_retry` with the tries that are left
unfoldable pub try_posts : ℕ → ℕ → (ℕ → Post) → Answer × ℕ
try_posts zero n posts = (raised_error, n)
try_posts (suc left) n posts = after_post (posts n) (suc n) (try_posts left (suc n) posts)

abbrev pub is_success : Answer → Bool
is_success (answered status) = status == 200 || status == 201 || status == 202 || status == 204
is_success raised_error = false

-- `_send_webhook`: whether it succeeds, and the number of requests
unfoldable pub send_webhook : (ℕ → Post) → Bool × ℕ
send_webhook posts = let (answer, n) = try_posts 3 0 posts in (is_success answer, n)
