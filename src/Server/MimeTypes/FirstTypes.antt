-- ===== src/Server/MimeTypes/FirstTypes.antt =====
-- thinger/http/server/mime_types.cpp: the entries of `extension_map` from 3gpp to jpg.
use thinger_http.Common.{List, [], ◌∷◌, Bytes, codes}

unfoldable pub first_types : List (Bytes × Bytes)
first_types =
    (codes "*3gpp", codes "audio/3gpp")
    ∷ (codes "*jpm", codes "video/jpm")
    ∷ (codes "*mp3", codes "audio/mp3")
    ∷ (codes "*rtf", codes "text/rtf")
    ∷ (codes "*wav", codes "audio/wave")
    ∷ (codes "*xml", codes "text/xml")
    ∷ (codes "3g2", codes "video/3gpp2")
    ∷ (codes "3gp", codes "video/3gpp")
    ∷ (codes "3gpp", codes "video/3gpp")
    ∷ (codes "ac", codes "application/pkix-attr-cert")
    ∷ (codes "adp", codes "audio/adpcm")
    ∷ (codes "ai", codes "application/postscript")
    ∷ (codes "apng", codes "image/apng")
    ∷ (codes "appcache", codes "text/cache-manifest")
    ∷ (codes "asc", codes "application/pgp-signature")
    ∷ (codes "atom", codes "application/atom+xml")
    ∷ (codes "atomcat", codes "application/atomcat+xml")
    ∷ (codes "atomsvc", codes "application/atomsvc+xml")
    ∷ (codes "au", codes "audio/basic")
    ∷ (codes "aw", codes "application/applixware")
    ∷ (codes "bdoc", codes "application/bdoc")
    ∷ (codes "bin", codes "application/octet-stream")
    ∷ (codes "bmp", codes "image/bmp")
    ∷ (codes "bpk", codes "application/octet-stream")
    ∷ (codes "buffer", codes "application/octet-stream")
    ∷ (codes "ccxml", codes "application/ccxml+xml")
    ∷ (codes "cdmia", codes "application/cdmi-capability")
    ∷ (codes "cdmic", codes "application/cdmi-container")
    ∷ (codes "cdmid", codes "application/cdmi-domain")
    ∷ (codes "cdmio", codes "application/cdmi-object")
    ∷ (codes "cdmiq", codes "application/cdmi-queue")
    ∷ (codes "cer", codes "application/pkix-cert")
    ∷ (codes "cgm", codes "image/cgm")
    ∷ (codes "class", codes "application/java-vm")
    ∷ (codes "coffee", codes "text/coffeescript")
    ∷ (codes "conf", codes "text/plain")
    ∷ (codes "cpt", codes "application/mac-compactpro")
    ∷ (codes "crl", codes "application/pkix-crl")
    ∷ (codes "css", codes "text/css")
    ∷ (codes "csv", codes "text/csv")
    ∷ (codes "cu", codes "application/cu-seeme")
    ∷ (codes "davmount", codes "application/davmount+xml")
    ∷ (codes "dbk", codes "application/docbook+xml")
    ∷ (codes "deb", codes "application/octet-stream")
    ∷ (codes "def", codes "text/plain")
    ∷ (codes "deploy", codes "application/octet-stream")
    ∷ (codes "disposition-notification", codes "message/disposition-notification")
    ∷ (codes "dist", codes "application/octet-stream")
    ∷ (codes "distz", codes "application/octet-stream")
    ∷ (codes "dll", codes "application/octet-stream")
    ∷ (codes "dmg", codes "application/octet-stream")
    ∷ (codes "dms", codes "application/octet-stream")
    ∷ (codes "doc", codes "application/msword")
    ∷ (codes "dot", codes "application/msword")
    ∷ (codes "drle", codes "image/dicom-rle")
    ∷ (codes "dssc", codes "application/dssc+der")
    ∷ (codes "dtd", codes "application/xml-dtd")
    ∷ (codes "dump", codes "application/octet-stream")
    ∷ (codes "ear", codes "application/java-archive")
    ∷ (codes "ecma", codes "application/ecmascript")
    ∷ (codes "elc", codes "application/octet-stream")
    ∷ (codes "emf", codes "image/emf")
    ∷ (codes "eml", codes "message/rfc822")
    ∷ (codes "emma", codes "application/emma+xml")
    ∷ (codes "eps", codes "application/postscript")
    ∷ (codes "epub", codes "application/epub+zip")
    ∷ (codes "es", codes "application/ecmascript")
    ∷ (codes "exe", codes "application/octet-stream")
    ∷ (codes "exi", codes "application/exi")
    ∷ (codes "exr", codes "image/aces")
    ∷ (codes "ez", codes "application/andrew-inset")
    ∷ (codes "fits", codes "image/fits")
    ∷ (codes "g3", codes "image/g3fax")
    ∷ (codes "gbr", codes "application/rpki-ghostbusters")
    ∷ (codes "geojson", codes "application/geo+json")
    ∷ (codes "gif", codes "image/gif")
    ∷ (codes "glb", codes "model/gltf-binary")
    ∷ (codes "gltf", codes "model/gltf+json")
    ∷ (codes "gml", codes "application/gml+xml")
    ∷ (codes "gpx", codes "application/gpx+xml")
    ∷ (codes "gram", codes "application/srgs")
    ∷ (codes "grxml", codes "application/srgs+xml")
    ∷ (codes "gxf", codes "application/gxf")
    ∷ (codes "gz", codes "application/gzip")
    ∷ (codes "h261", codes "video/h261")
    ∷ (codes "h263", codes "video/h263")
    ∷ (codes "h264", codes "video/h264")
    ∷ (codes "heic", codes "image/heic")
    ∷ (codes "heics", codes "image/heic-sequence")
    ∷ (codes "heif", codes "image/heif")
    ∷ (codes "heifs", codes "image/heif-sequence")
    ∷ (codes "hjson", codes "application/hjson")
    ∷ (codes "hlp", codes "application/winhlp")
    ∷ (codes "hqx", codes "application/mac-binhex40")
    ∷ (codes "htm", codes "text/html")
    ∷ (codes "html", codes "text/html")
    ∷ (codes "ics", codes "text/calendar")
    ∷ (codes "ief", codes "image/ief")
    ∷ (codes "ifb", codes "text/calendar")
    ∷ (codes "iges", codes "model/iges")
    ∷ (codes "igs", codes "model/iges")
    ∷ (codes "img", codes "application/octet-stream")
    ∷ (codes "in", codes "text/plain")
    ∷ (codes "ini", codes "text/plain")
    ∷ (codes "ink", codes "application/inkml+xml")
    ∷ (codes "inkml", codes "application/inkml+xml")
    ∷ (codes "ipfix", codes "application/ipfix")
    ∷ (codes "iso", codes "application/octet-stream")
    ∷ (codes "jade", codes "text/jade")
    ∷ (codes "jar", codes "application/java-archive")
    ∷ (codes "jls", codes "image/jls")
    ∷ (codes "jp2", codes "image/jp2")
    ∷ (codes "jpe", codes "image/jpeg")
    ∷ (codes "jpeg", codes "image/jpeg")
    ∷ (codes "jpf", codes "image/jpx")
    ∷ (codes "jpg", codes "image/jpeg")
    ∷ []
