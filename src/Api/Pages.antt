-- ===== src/Api/Pages.antt =====
-- `createApi`, the dashboard: the files of `frontendDist`, and its page for the other paths.
use io_t_billing_service.Base.{
  Bool, true, false, not, ◌||◌, ◌&&◌, [], ◌∷◌, Text, text, ◌==◌, if◌then◌else◌,
}
use io_t_billing_service.Gateway.{is_set}

unfoldable pub starts_with : Text → Text → Bool
starts_with [] path = true
starts_with (c ∷ prefix) [] = false
starts_with (c ∷ prefix) (d ∷ path) = c == d && starts_with prefix path

-- `/^(?!\/api|\/health|\/stream).*/`
unfoldable pub is_page : Text → Bool
is_page path = not (
    starts_with (text "/api") path
    || starts_with (text "/health") path
    || starts_with (text "/stream") path)

-- What a path is answered with that no route of the API takes.
pub data Content : Type 0 where
  file : Text → Content
  index_page not_found : Content

-- `exists` is fs.existsSync, and `has_file` whether express.static finds a file for the path.
pub record Dist : Type 0 where
  pub frontend_dist : Text
  pub exists : Text → Bool
  pub has_file : Text → Bool

unfoldable pub serve : Dist → Text → Content
serve dist path =
    if not (is_set dist.frontend_dist && dist.exists dist.frontend_dist)
    then not_found
    else if dist.has_file path
    then file path
    else if is_page path
    then index_page
    else not_found
