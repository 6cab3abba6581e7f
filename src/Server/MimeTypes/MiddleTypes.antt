-- ===== src/Server/MimeTypes/MiddleTypes.antt =====
-- thinger/http/server/mime_types.cpp: the entries of `extension_map` from jpg2 to rnc.
use thinger_http.Common.{List, [], ◌∷◌, Bytes, codes}

unfoldable pub middle_types : List (Bytes × Bytes)
middle_types =
    (codes "jpg2", codes "image/jp2")
    ∷ (codes "jpgm", codes "video/jpm")
    ∷ (codes "jpgv", codes "video/jpeg")
    ∷ (codes "jpm", codes "image/jpm")
    ∷ (codes "jpx", codes "image/jpx")
    ∷ (codes "js", codes "application/javascript")
    ∷ (codes "json", codes "application/json")
    ∷ (codes "json5", codes "application/json5")
    ∷ (codes "jsonld", codes "application/ld+json")
    ∷ (codes "jsonml", codes "application/jsonml+json")
    ∷ (codes "jsx", codes "text/jsx")
    ∷ (codes "kar", codes "audio/midi")
    ∷ (codes "ktx", codes "image/ktx")
    ∷ (codes "less", codes "text/less")
    ∷ (codes "list", codes "text/plain")
    ∷ (codes "litcoffee", codes "text/coffeescript")
    ∷ (codes "log", codes "text/plain")
    ∷ (codes "lostxml", codes "application/lost+xml")
    ∷ (codes "lrf", codes "application/octet-stream")
    ∷ (codes "m1v", codes "video/mpeg")
    ∷ (codes "m21", codes "application/mp21")
    ∷ (codes "m2a", codes "audio/mpeg")
    ∷ (codes "m2v", codes "video/mpeg")
    ∷ (codes "m3a", codes "audio/mpeg")
    ∷ (codes "m4a", codes "audio/mp4")
    ∷ (codes "m4p", codes "application/mp4")
    ∷ (codes "ma", codes "application/mathematica")
    ∷ (codes "mads", codes "application/mads+xml")
    ∷ (codes "man", codes "text/troff")
    ∷ (codes "manifest", codes "text/cache-manifest")
    ∷ (codes "map", codes "application/json")
    ∷ (codes "mar", codes "application/octet-stream")
    ∷ (codes "markdown", codes "text/markdown")
    ∷ (codes "mathml", codes "application/mathml+xml")
    ∷ (codes "mb", codes "application/mathematica")
    ∷ (codes "mbox", codes "application/mbox")
    ∷ (codes "md", codes "text/markdown")
    ∷ (codes "me", codes "text/troff")
    ∷ (codes "mesh", codes "model/mesh")
    ∷ (codes "meta4", codes "application/metalink4+xml")
    ∷ (codes "metalink", codes "application/metalink+xml")
    ∷ (codes "mets", codes "application/mets+xml")
    ∷ (codes "mft", codes "application/rpki-manifest")
    ∷ (codes "mid", codes "audio/midi")
    ∷ (codes "midi", codes "audio/midi")
    ∷ (codes "mime", codes "message/rfc822")
    ∷ (codes "mj2", codes "video/mj2")
    ∷ (codes "mjp2", codes "video/mj2")
    ∷ (codes "mjs", codes "application/javascript")
    ∷ (codes "mml", codes "text/mathml")
    ∷ (codes "mods", codes "application/mods+xml")
    ∷ (codes "mov", codes "video/quicktime")
    ∷ (codes "mp2", codes "audio/mpeg")
    ∷ (codes "mp21", codes "application/mp21")
    ∷ (codes "mp2a", codes "audio/mpeg")
    ∷ (codes "mp3", codes "audio/mpeg")
    ∷ (codes "mp4", codes "video/mp4")
    ∷ (codes "mp4a", codes "audio/mp4")
    ∷ (codes "mp4s", codes "application/mp4")
    ∷ (codes "mp4v", codes "video/mp4")
    ∷ (codes "mpd", codes "application/dash+xml")
    ∷ (codes "mpe", codes "video/mpeg")
    ∷ (codes "mpeg", codes "video/mpeg")
    ∷ (codes "mpg", codes "video/mpeg")
    ∷ (codes "mpg4", codes "video/mp4")
    ∷ (codes "mpga", codes "audio/mpeg")
    ∷ (codes "mrc", codes "application/marc")
    ∷ (codes "mrcx", codes "application/marcxml+xml")
    ∷ (codes "ms", codes "text/troff")
    ∷ (codes "mscml", codes "application/mediaservercontrol+xml")
    ∷ (codes "msh", codes "model/mesh")
    ∷ (codes "msi", codes "application/octet-stream")
    ∷ (codes "msm", codes "application/octet-stream")
    ∷ (codes "msp", codes "application/octet-stream")
    ∷ (codes "mxf", codes "application/mxf")
    ∷ (codes "mxml", codes "application/xv+xml")
    ∷ (codes "n3", codes "text/n3")
    ∷ (codes "nb", codes "application/mathematica")
    ∷ (codes "oda", codes "application/oda")
    ∷ (codes "oga", codes "audio/ogg")
    ∷ (codes "ogg", codes "audio/ogg")
    ∷ (codes "ogv", codes "video/ogg")
    ∷ (codes "ogx", codes "application/ogg")
    ∷ (codes "omdoc", codes "application/omdoc+xml")
    ∷ (codes "onepkg", codes "application/onenote")
    ∷ (codes "onetmp", codes "application/onenote")
    ∷ (codes "onetoc", codes "application/onenote")
    ∷ (codes "onetoc2", codes "application/onenote")
    ∷ (codes "opf", codes "application/oebps-package+xml")
    ∷ (codes "otf", codes "font/otf")
    ∷ (codes "owl", codes "application/rdf+xml")
    ∷ (codes "oxps", codes "application/oxps")
    ∷ (codes "p10", codes "application/pkcs10")
    ∷ (codes "p7c", codes "application/pkcs7-mime")
    ∷ (codes "p7m", codes "application/pkcs7-mime")
    ∷ (codes "p7s", codes "application/pkcs7-signature")
    ∷ (codes "p8", codes "application/pkcs8")
    ∷ (codes "pdf", codes "application/pdf")
    ∷ (codes "pfr", codes "application/font-tdpfr")
    ∷ (codes "pgp", codes "application/pgp-encrypted")
    ∷ (codes "pkg", codes "application/octet-stream")
    ∷ (codes "pki", codes "application/pkixcmp")
    ∷ (codes "pkipath", codes "application/pkix-pkipath")
    ∷ (codes "pls", codes "application/pls+xml")
    ∷ (codes "png", codes "image/png")
    ∷ (codes "prf", codes "application/pics-rules")
    ∷ (codes "ps", codes "application/postscript")
    ∷ (codes "pskcxml", codes "application/pskc+xml")
    ∷ (codes "qt", codes "video/quicktime")
    ∷ (codes "raml", codes "application/raml+yaml")
    ∷ (codes "rdf", codes "application/rdf+xml")
    ∷ (codes "rif", codes "application/reginfo+xml")
    ∷ (codes "rl", codes "application/resource-lists+xml")
    ∷ (codes "rld", codes "application/resource-lists-diff+xml")
    ∷ (codes "rmi", codes "audio/midi")
    ∷ (codes "rnc", codes "application/relax-ng-compact-syntax")
    ∷ []
