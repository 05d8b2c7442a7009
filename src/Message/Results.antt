-- ===== src/Message/Results.antt =====
-- Reading a build result in either version: ofborg/src/message/buildresult.rs.
use ofborg.Base.{Bool, true, false, Option, none, some, ◌++◌, Text, text}
use ofborg.Message.{
  BuildStatus, skipped, success, failure, timed_out, unexpected_error, ResultBody, BuildResult, v1,
  legacy_result, LegacyBuildResult,
}

-- `hubcaps::checks::Conclusion`, the two values that are used
pub data Conclusion : Type 0 where
  neutral succeeded : Conclusion

-- `impl From<BuildStatus> for String`
unfoldable pub status_title : BuildStatus → Text
status_title skipped = text "No attempt"
status_title success = text "Success"
status_title failure = text "Failure"
status_title timed_out = text "Timed out, unknown build status"
status_title (unexpected_error err) = text "Unexpected error: " ++ err

-- `impl From<BuildStatus> for Conclusion`
unfoldable pub conclusion : BuildStatus → Conclusion
conclusion skipped = neutral
conclusion success = succeeded
conclusion failure = neutral
conclusion timed_out = neutral
conclusion (unexpected_error err) = neutral

-- the fallback for a message with no `status`
from_success : Option Bool → BuildStatus
from_success none = skipped
from_success (some true) = success
from_success (some false) = failure

-- `BuildResult::status`
unfoldable pub status : BuildResult → BuildStatus
unfolding from_success
status (legacy_result body ok none) = from_success ok
status (legacy_result body ok (some given)) = given
status (v1 body given) = given

body_of : BuildResult → ResultBody
body_of (legacy_result body ok given) = body
body_of (v1 body given) = body

-- `BuildResult::legacy`
unfoldable pub legacy : BuildResult → LegacyBuildResult
unfolding body_of
legacy r = record { body = body_of r; status = status r }
