-- ===== src/Client/Form.antt =====
-- thinger/http/client/form.{hpp,cpp}: forms, and the body that they are sent as. The characters
-- that are drawn for a boundary are an argument.
pub mod RoundTrip
use thinger_http.Common.{
  ℕ, Bool, true, false, not, Option, none, some, List, [], ◌∷◌, ◌++◌, ◌==◌, if◌then◌else◌, Bytes,
  codes, bytes_eq, is_empty,
}
use thinger_http.Libraries.{Filesystem}
use thinger_http.Util.Url.{is_unreserved, percent}
use thinger_http.Server.MimeTypes.{extension_to_type, text_plain}

-- `file_entry`
pub record FileEntry : Type 0 where
  pub name : Bytes
  pub filename : Bytes
  pub content_type : Bytes
  pub content : Bytes

pub record Form : Type 0 where
  pub form_fields : List (Bytes × Bytes)
  pub form_files : List FileEntry
  pub boundary : Bytes

-- `form()`
abbrev pub new_form : Form
new_form = record { form_fields = []; form_files = []; boundary = [] }

-- `field`
unfoldable pub field : Bytes → Bytes → Form → Form
field name value f = record f { form_fields = f.form_fields ++ (name, value) ∷ [] }

-- `fields`
unfoldable pub fields : List (Bytes × Bytes) → Form → Form
unfolding field
fields [] f = f
fields ((name, value) ∷ pairs) f = fields pairs (field name value f)

-- `file`, of a content that is given
unfoldable pub file : FileEntry → Form → Form
file entry f = record f { form_files = f.form_files ++ entry ∷ [] }

-- `is_multipart`
unfoldable pub is_multipart : Form → Bool
is_multipart f = not (is_empty f.form_files)

-- `generate_boundary`, of the characters that it draws
unfoldable pub generate_boundary : Bytes → Bytes
generate_boundary drawn = codes "----ThingerFormBoundary" ++ drawn

-- `get_boundary`, and the form, which then keeps the boundary
unfoldable pub get_boundary : Bytes → Form → Bytes × Form
unfolding generate_boundary
get_boundary drawn f =
    let fresh = generate_boundary drawn in
    if is_empty f.boundary then (fresh, record f { boundary = fresh }) else (f.boundary, f)

-- One round of the loop of `form::url_encode`
unfoldable pub form_encode_byte : ℕ → Bytes
unfolding is_unreserved percent
form_encode_byte c = if is_unreserved c then c ∷ [] else if c == b' ' then b'+' ∷ [] else percent c

-- `form::url_encode`
unfoldable pub form_encode : Bytes → Bytes
unfolding form_encode_byte
form_encode [] = []
form_encode (c ∷ str) = form_encode_byte c ++ form_encode str

-- The loop of `build_urlencoded`
unfoldable pub append_fields : Bytes → List (Bytes × Bytes) → Bytes
unfolding form_encode
append_fields result [] = result
append_fields result ((name, value) ∷ pairs) =
    let separated = if is_empty result then result else result ++ b'&' ∷ [] in
    append_fields (separated ++ (form_encode name ++ b'=' ∷ form_encode value)) pairs

-- `build_urlencoded`
unfoldable pub build_urlencoded : Form → Bytes
unfolding append_fields
build_urlencoded f = append_fields [] f.form_fields

abbrev crlf : Bytes
crlf = b'\r' ∷ b'\n' ∷ []

-- The lines in front of a part, up to its name.
abbrev begin_part : Bytes → Bytes → Bytes
begin_part boundary name =
    codes "--"
    ++ (boundary
        ++ (crlf ++ (codes "Content-Disposition: form-data; name=\"" ++ (name ++ b'"' ∷ []))))

-- The loop over the text fields.
unfoldable pub field_parts : Bytes → List (Bytes × Bytes) → Bytes
field_parts boundary [] = []
field_parts boundary ((name, value) ∷ pairs) =
    begin_part boundary name ++ (crlf ++ (crlf ++ (value ++ (crlf ++ field_parts boundary pairs))))

-- The loop over the files.
unfoldable pub file_parts : Bytes → List FileEntry → Bytes
file_parts boundary [] = []
file_parts boundary (f ∷ files) =
    begin_part boundary f.name
    ++ (codes "; filename=\""
        ++ (f.filename
            ++ (b'"'
                ∷ (crlf
                    ++ (codes "Content-Type: "
                        ++ (f.content_type
                            ++ (crlf
                                ++ (crlf
                                    ++ (f.content ++ (crlf ++ file_parts boundary files))))))))))

-- `build_multipart`
unfoldable pub build_multipart : Bytes → Form → Bytes × Form
unfolding field_parts file_parts get_boundary
build_multipart drawn f =
    let (boundary, kept) = get_boundary drawn f in
    (
      field_parts boundary f.form_fields
          ++ (file_parts boundary f.form_files
              ++ (codes "--" ++ (boundary ++ (codes "--" ++ crlf)))),
      kept,
    )

-- `content_type`
unfoldable pub content_type : Bytes → Form → Bytes × Form
unfolding is_multipart get_boundary
content_type drawn f =
    let (boundary, kept) = get_boundary drawn f in
    if is_multipart f
    then (codes "multipart/form-data; boundary=" ++ boundary, kept)
    else (codes "application/x-www-form-urlencoded", f)

-- `body`
unfoldable pub body : Bytes → Form → Bytes × Form
unfolding is_multipart build_multipart build_urlencoded
body drawn f = if is_multipart f then build_multipart drawn f else (build_urlencoded f, f)

-- `mime_type` of a path with this extension
unfoldable pub mime_type : Bytes → Bytes
unfolding extension_to_type
mime_type extension =
    let type = extension_to_type extension in
    if bytes_eq type text_plain
    then (if is_empty extension then type else codes "application/octet-stream")
    else type

abbrev add_contents : Bytes → Bytes → Bytes → Option Bytes → Form → Form
add_contents name filename type none f = f
add_contents name filename type (some bytes) f =
    file (record { name = name; filename = filename; content_type = type; content = bytes }) f

module _ ⦃d : Filesystem⦄ where
  -- `file`, of a path and a type
  unfoldable pub typed_file_at : Bytes → Bytes → Bytes → Form → Form
  unfolding file
  typed_file_at name path type f = add_contents name (d.filename path) type (d.contents path) f

  -- `file`, of a path
  unfoldable pub file_at : Bytes → Bytes → Form → Form
  unfolding typed_file_at mime_type
  file_at name path f = typed_file_at name path (mime_type (d.extension path)) f
