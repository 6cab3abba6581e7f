-- ===== src/Tests/FileServing.antt =====
-- Static files and their content types, at concrete inputs.
use thinger_http.Common.{
  ◌≡◌, refl, true, false, none, some, [], ◌∷◌, ◌++◌, if◌then◌else◌, codes, bytes_eq,
}
use thinger_http.Libraries.{Filesystem}
use thinger_http.Server.Exchange.{Exchange}
use thinger_http.Server.Responder.{Responder, new_responder}
use thinger_http.Server.MimeTypes.{extension_to_type, find_type, to_lower, strip_dot}
use thinger_http.Server.MimeTypes.FirstTypes.{first_types}
use thinger_http.Server.MimeTypes.MiddleTypes.{middle_types}
use thinger_http.Server.MimeTypes.LastTypes.{last_types}
use thinger_http.Server.StaticFiles.{serve_static}
use thinger_http.Server.StaticFiles.Confined.{Served, serve_static-Served}
use thinger_http.Tests.Ascii.{ascii}
use thinger_http.Tests.Routing.{no_codec, asks}

-- The directory `/www` with the file `a.txt`, where no path has a link or dots.
instance abbrev one_file : Filesystem
one_file = record {
  canonical = λ path. if bytes_eq path (codes "/www") then some path else none;
  weakly_canonical = λ path. some path;
  join = λ base name. base ++ b'/' ∷ name;
  exists = λ path. true;
  is_regular_file = λ path. bytes_eq path (codes "/www/a.txt");
  is_directory = λ path. bytes_eq path (codes "/www");
  contents = λ path. some (codes "text");
  extension = λ path. codes ".txt";
  filename = λ path. codes "a.txt";
}

abbrev asked : Exchange
asked = record (asks (codes "/a.txt")) { params = (codes "path", codes "a.txt") ∷ [] }

abbrev answering : Responder
answering = new_responder false asked

serve_static-Served_example :
    Served ⦃b = ascii⦄
      (codes "/www")
      (codes "index.html")
      answering
      (serve_static ⦃b = ascii⦄ (codes "/www") (codes "index.html") answering)
serve_static-Served_example =
    serve_static-Served ⦃b = ascii⦄ (codes "/www") (codes "index.html") answering

html_page : extension_to_type (codes ".HTML") ≡ codes "text/html"
unfolding extension_to_type find_type to_lower strip_dot first_types middle_types last_types
    bytes_eq
html_page = refl

unknown_type : extension_to_type (codes "xyzzy") ≡ codes "text/plain"
unfolding extension_to_type find_type to_lower strip_dot first_types middle_types last_types
    bytes_eq
unknown_type = refl
