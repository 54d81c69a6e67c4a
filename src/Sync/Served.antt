-- ===== src/Sync/Served.antt =====
-- What a node lists it also hands out.
use chromatin_protocol.Prelude.{List}
use chromatin_protocol.External.Mdbx.{Mdbx}
use chromatin_protocol.External.Crypto.{Crypto}
use chromatin_protocol.Storage.Layout.{Storage}
