-- ===== src/Login.antt =====
-- Who a request comes from: app/api/deps.py and app/services/auth.py. PyJWT and the provider's answers
-- are parameters.
pub mod Users
pub mod Jwks
pub mod Principal
