-- ===== src/HandShake/Token.antt =====
-- HeaderToken.go: whether a header field, a comma separated list on any number of lines, has a token.
pub mod Elements
pub mod Laws
use wlgows.Base.{Bool, false, ◌||◌, List, [], ◌∷◌}
use wlgows.Base.Bytes.{Bytes}
use wlgows.Http.Text.{split, trim_space, equal_fold}
use wlgows.Http.Fields.{Header, values}

-- The inner loop, over the candidates of one line.
unfoldable pub any_candidate : Bytes → List Bytes → Bool
any_candidate token [] = false
any_candidate token (candidate ∷ rest) =
    equal_fold (trim_space candidate) token || any_candidate token rest

-- The outer loop, over the lines.
unfoldable pub any_value : Bytes → List Bytes → Bool
unfolding any_candidate
any_value token [] = false
any_value token (value ∷ rest) = any_candidate token (split value) || any_value token rest

unfoldable pub header_has_token : Header → Bytes → Bytes → Bool
unfolding any_value
header_has_token header key token = any_value token (values header key)
