-- ===== src/Server/MimeTypes/LastTypes.antt =====
-- thinger/http/server/mime_types.cpp: the entries of `extension_map` from rng to zip.
use thinger_http.Common.{List, [], ◌∷◌, Bytes, codes}

unfoldable pub last_types : List (Bytes × Bytes)
last_types =
    (codes "rng", codes "application/xml")
    ∷ (codes "roa", codes "application/rpki-roa")
    ∷ (codes "roff", codes "text/troff")
    ∷ (codes "rq", codes "application/sparql-query")
    ∷ (codes "rs", codes "application/rls-services+xml")
    ∷ (codes "rsd", codes "application/rsd+xml")
    ∷ (codes "rss", codes "application/rss+xml")
    ∷ (codes "rtf", codes "application/rtf")
    ∷ (codes "rtx", codes "text/richtext")
    ∷ (codes "s3m", codes "audio/s3m")
    ∷ (codes "sbml", codes "application/sbml+xml")
    ∷ (codes "scq", codes "application/scvp-cv-request")
    ∷ (codes "scs", codes "application/scvp-cv-response")
    ∷ (codes "sdp", codes "application/sdp")
    ∷ (codes "ser", codes "application/java-serialized-object")
    ∷ (codes "setpay", codes "application/set-payment-initiation")
    ∷ (codes "setreg", codes "application/set-registration-initiation")
    ∷ (codes "sgi", codes "image/sgi")
    ∷ (codes "sgm", codes "text/sgml")
    ∷ (codes "sgml", codes "text/sgml")
    ∷ (codes "shex", codes "text/shex")
    ∷ (codes "shf", codes "application/shf+xml")
    ∷ (codes "shtml", codes "text/html")
    ∷ (codes "sig", codes "application/pgp-signature")
    ∷ (codes "sil", codes "audio/silk")
    ∷ (codes "silo", codes "model/mesh")
    ∷ (codes "slim", codes "text/slim")
    ∷ (codes "slm", codes "text/slim")
    ∷ (codes "smi", codes "application/smil+xml")
    ∷ (codes "smil", codes "application/smil+xml")
    ∷ (codes "snd", codes "audio/basic")
    ∷ (codes "so", codes "application/octet-stream")
    ∷ (codes "spp", codes "application/scvp-vp-response")
    ∷ (codes "spq", codes "application/scvp-vp-request")
    ∷ (codes "spx", codes "audio/ogg")
    ∷ (codes "sru", codes "application/sru+xml")
    ∷ (codes "srx", codes "application/sparql-results+xml")
    ∷ (codes "ssdl", codes "application/ssdl+xml")
    ∷ (codes "ssml", codes "application/ssml+xml")
    ∷ (codes "stk", codes "application/hyperstudio")
    ∷ (codes "styl", codes "text/stylus")
    ∷ (codes "stylus", codes "text/stylus")
    ∷ (codes "svg", codes "image/svg+xml")
    ∷ (codes "svgz", codes "image/svg+xml")
    ∷ (codes "t", codes "text/troff")
    ∷ (codes "t38", codes "image/t38")
    ∷ (codes "tei", codes "application/tei+xml")
    ∷ (codes "teicorpus", codes "application/tei+xml")
    ∷ (codes "text", codes "text/plain")
    ∷ (codes "tfi", codes "application/thraud+xml")
    ∷ (codes "tfx", codes "image/tiff-fx")
    ∷ (codes "tif", codes "image/tiff")
    ∷ (codes "tiff", codes "image/tiff")
    ∷ (codes "tr", codes "text/troff")
    ∷ (codes "ts", codes "video/mp2t")
    ∷ (codes "tsd", codes "application/timestamped-data")
    ∷ (codes "tsv", codes "text/tab-separated-values")
    ∷ (codes "ttc", codes "font/collection")
    ∷ (codes "ttf", codes "font/ttf")
    ∷ (codes "ttl", codes "text/turtle")
    ∷ (codes "txt", codes "text/plain")
    ∷ (codes "u8dsn", codes "message/global-delivery-status")
    ∷ (codes "u8hdr", codes "message/global-headers")
    ∷ (codes "u8mdn", codes "message/global-disposition-notification")
    ∷ (codes "u8msg", codes "message/global")
    ∷ (codes "uri", codes "text/uri-list")
    ∷ (codes "uris", codes "text/uri-list")
    ∷ (codes "urls", codes "text/uri-list")
    ∷ (codes "vcard", codes "text/vcard")
    ∷ (codes "vrml", codes "model/vrml")
    ∷ (codes "vtt", codes "text/vtt")
    ∷ (codes "vxml", codes "application/voicexml+xml")
    ∷ (codes "war", codes "application/java-archive")
    ∷ (codes "wasm", codes "application/wasm")
    ∷ (codes "wav", codes "audio/wav")
    ∷ (codes "weba", codes "audio/webm")
    ∷ (codes "webm", codes "video/webm")
    ∷ (codes "webmanifest", codes "application/manifest+json")
    ∷ (codes "webp", codes "image/webp")
    ∷ (codes "wgt", codes "application/widget")
    ∷ (codes "wmf", codes "image/wmf")
    ∷ (codes "woff", codes "font/woff")
    ∷ (codes "woff2", codes "font/woff2")
    ∷ (codes "wrl", codes "model/vrml")
    ∷ (codes "wsdl", codes "application/wsdl+xml")
    ∷ (codes "wspolicy", codes "application/wspolicy+xml")
    ∷ (codes "x3d", codes "model/x3d+xml")
    ∷ (codes "x3db", codes "model/x3d+binary")
    ∷ (codes "x3dbz", codes "model/x3d+binary")
    ∷ (codes "x3dv", codes "model/x3d+vrml")
    ∷ (codes "x3dvz", codes "model/x3d+vrml")
    ∷ (codes "x3dz", codes "model/x3d+xml")
    ∷ (codes "xaml", codes "application/xaml+xml")
    ∷ (codes "xdf", codes "application/xcap-diff+xml")
    ∷ (codes "xdssc", codes "application/dssc+xml")
    ∷ (codes "xenc", codes "application/xenc+xml")
    ∷ (codes "xer", codes "application/patch-ops-error+xml")
    ∷ (codes "xht", codes "application/xhtml+xml")
    ∷ (codes "xhtml", codes "application/xhtml+xml")
    ∷ (codes "xhvml", codes "application/xv+xml")
    ∷ (codes "xm", codes "audio/xm")
    ∷ (codes "xml", codes "application/xml")
    ∷ (codes "xop", codes "application/xop+xml")
    ∷ (codes "xpl", codes "application/xproc+xml")
    ∷ (codes "xsd", codes "application/xml")
    ∷ (codes "xsl", codes "application/xml")
    ∷ (codes "xslt", codes "application/xslt+xml")
    ∷ (codes "xspf", codes "application/xspf+xml")
    ∷ (codes "xvm", codes "application/xv+xml")
    ∷ (codes "xvml", codes "application/xv+xml")
    ∷ (codes "yaml", codes "text/yaml")
    ∷ (codes "yang", codes "application/yang")
    ∷ (codes "yin", codes "application/yin+xml")
    ∷ (codes "yml", codes "text/yaml")
    ∷ (codes "zip", codes "application/zip")
    ∷ []
