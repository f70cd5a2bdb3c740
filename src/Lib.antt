-- ===== src/Lib.antt =====
-- A verification of the core of multivendor-hsm-pki: a certificate authority over HSMs, with its
-- profiles, the issuance of certificates, the store of certificates, the CRL and the OCSP responder,
-- the HTTP service in front of them, the published inventory of signing keys, the gate over known
-- vulnerabilities, the handling of signing keys on a token, and the entitlements and the
-- authentication of clients.
--
-- How the parts stand together. A request to a write endpoint is authenticated by a client certificate
-- that the store knows and that is not revoked (internal/api/auth.go); what the client may ask for is
-- its entitlement (internal/entitlement). An issuance (internal/api/server.go) checks the entitlement,
-- asks the CA (internal/ca) for a leaf under a profile (internal/profile) and records it in the store
-- (internal/store); a revocation marks the record and drops the cached CRL and the cached OCSP
-- responses; the CRL and the responder (internal/responder) read the store. The key tool provisions
-- and destroys signing keys on a token (internal/signingkey over internal/pkcs11), and the inventory
-- (internal/inventory) publishes which of them a signer or a verifier may use at a point in time. The
-- pipeline judges scanner reports with an allowlist of accepted findings (ci/vuln-gate).
--
-- Prelude, Clock, Text, Action: shared types and lemmas. Prelude has tests, results, lists,
-- association lists and integers; Clock has time.Time as nanoseconds since the zero Time, and
-- time.Duration with the product by time.Hour wrapped at 64 bits; Text has code points, the decimals
-- of big.Int.SetString and, in Text.Regex, regular expressions with a matcher by derivatives that is
-- proved to decide its language; Action has steps that change a state and may fail.
--
-- Store: internal/store/store.go (CertRecord, RevocationReason.Valid, NormalizeTime). Store.Contract
-- is the Store interface: what Get shows is a map from serials to records, and each method is a
-- function of that view. Store.Memory is internal/store/memory.go; Store.Memory.Laws proves that it
-- keeps the contract. Store.History is about sequences of calls on any store that keeps it, where a call
-- that fails with an error of the implementation's own is a step that changes nothing. Store.Service is
-- the interface as its clients see it, every method with such errors as results; Store.Memory.Service is
-- the store in memory as such a store.
--
-- Profile: internal/profile/profile.go. Profile has the profiles, their validation and AllowsKey;
-- Profile.Names CheckSANs and Subject; Profile.Signed what of a subject crypto/x509 signs: the fields
-- of the name, not its Names; Profile.Vocabulary Spec.Compile and Parse; Profile.Builtin the
-- built-in set. Profile.Valid adds loadProfiles of internal/config/config.go.
--
-- Ca: internal/ca/ca.go, crl.go and errors.go. Ca.Serial is GenerateSerial, on a list of draws:
-- what the random source will put into a buffer of each length; Ca.Issue is Issue, split into its checks (check_policy), the
-- template (leaf_template) and the signing (sign_leaf); Ca.Crl is BuildCRL. Ca.Startup is the checks
-- of internal/ca/intermediate.go, service.go and checkRootMaySign of reissue.go.
--
-- Responder: internal/responder/responder.go. Responder is Respond, split where it takes its lock, and
-- Invalidate; Responder.Renewal is New, Renew and one round of RunRenewal; Responder.Race runs a
-- revocation between the two critical sections, and two requests one after the other.
--
-- Api: internal/api/server.go, ocsp.go and health.go. Settings and Server are the fields of the server
-- that stay and that change. Api.Issuance, Api.Revocation, Api.Crl and Api.Ocsp are the handlers;
-- Api.Surface is the routes and the handlers behind requireClient; Api.Crl.Served runs sequences of
-- requests to any route over one state, a write by the handler behind requireClient; Api.Clients is
-- requireClient after such a sequence. A call takes the times that the code reads from the clock and the random
-- buffers that it may draw.
--
-- Config: internal/config/config.go and internal/pkcs11/roles.go. Config has the document and the
-- checks of its parts, Config.Load validateAuthenticatedSurface, validateOCSP and Load.
--
-- Inventory: internal/inventory/inventory.go. Validate is split as its loop is: check_names,
-- check_dates, check_key for one entry; check_entries for the loop. Inventory.Selection has Active,
-- Verifiable, ActiveAt, VerifiableAt; Inventory.Document has Marshal, Parse, Digest, Verify, SignWith.
--
-- VulnGate: ci/vuln-gate/main.go. VulnGate is the allowlist (loadAllowlist, covers); VulnGate.Gate is
-- recordTrivySuppressions and judgeGovulncheck; VulnGate.Union is requireEveryEntryUsed;
-- VulnGate.Command is run and writeHitsFile.
--
-- Pkcs11: internal/pkcs11 (types.go, findkey.go, eckey.go, and the label rule of adapters.go). Token
-- is what the key code calls of VendorAdapter, as an interface over a state, and IsToken states what
-- PKCS#11 documents of it: C_FindObjects returns the handles of the objects that match or an error of
-- the module, C_DestroyObject removes the object of the handle or nothing, and reading changes
-- nothing.
--
-- SigningKey: internal/signingkey/signingkey.go. SigningKey has Load and Verify; its children have the
-- search for a duplicate and the check of Provision around it (SigningKey.Unique), Provision, Destroy and CheckNoCAHierarchyKey.
--
-- Entitlement: internal/entitlement/entitlement.go. Entitlement.Glob is globRegexp, Entitlement.Names
-- PermitsNames, Entitlement.Compile Spec.Compile and Parse.
--
-- Auth: internal/api/auth.go (ClientIdentities, authenticate, requireClient).
--
-- Session: internal/pkcs11/session.go, the budget of a session as a state machine. TokenLogin:
-- internal/pkcs11/tokenlogin.go, LoginToken and LogoutToken over the vendor's module.
--
-- Retire: cmd/hsm-pki-keytool/retire.go, retirableEntry and retireSigningKey; Desk is what the command
-- calls of VendorAdapter around a session.
--
-- Every loop of the source is structural recursion on its list, so no fuel is needed. Parameters stand
-- for code outside the repository: Keys (encoding/pem, crypto/x509), Json (encoding/json), Signatures
-- (crypto/ecdsa, crypto/sha256), Points (crypto/elliptic, encoding/asn1), Module (the vendor's PKCS#11
-- library), Net (net, unicode), X509 (crypto/x509, net/url, crypto/sha1), Ocsp
-- (golang.org/x/crypto/ocsp), Web (encoding/pem, encoding/json, encoding/base64, net/url), Files (os,
-- encoding/pem, bytes, crypto/x509), Host (os, gopkg.in/yaml.v3, time.ParseDuration), the parsing of
-- dates, and the texts of names. Not modelled: the messages of errors and printed lines, except for
-- the values that they name; contexts, and mutexes where a method holds its lock for its whole run;
-- net/http itself; the SQLite store; the ceremony, the signer and the steps of the re-issue; the
-- adapter's other calls; and the other commands.
pub mod Prelude
pub mod Clock
pub mod Text
pub mod Store
pub mod Inventory
pub mod VulnGate
pub mod Action
pub mod Pkcs11
pub mod SigningKey
pub mod Entitlement
pub mod Auth
pub mod Session
pub mod Retire
pub mod TokenLogin
pub mod Profile
pub mod Ca
pub mod Responder
pub mod Api
pub mod Config
